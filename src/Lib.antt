-- ===== src/Lib.antt =====
-- lightning-liquidity: a library that lets a Lightning node sell or buy inbound liquidity by the
-- LSPS protocols. LSPS0 is the base protocol. With LSPS1 a client orders a channel from an LSP and
-- pays for it in advance. With LSPS2, just-in-time channels, a client asks an LSP for its fee
-- parameters, buys a channel with some of them, and gets a short channel id to put into an invoice;
-- the LSP intercepts the HTLCs that arrive for this id, opens the channel once they pay for it, and
-- forwards them with the opening fee taken out. The liquidity manager reads the messages of the
-- peers, hands each to the handler of its protocol, and writes what the handlers send.
--
-- Which file models which part:
--   Manager              src/manager.rs, LiquidityManager: its state and the dispatch; Wire: messages
--                        of the peers' transport; Chain: blocks; Queues: the user's calls
--   Lsps0                lsps0/: the types (Ser, Msgs), the handlers (Client, Service), the methods
--                        of ser.rs (Method), and its reading and writing of JSON-RPC (Json)
--   Lsps1/Inbound        lsps1/client.rs, InboundRequestState and InboundCRChannel
--   Lsps1/Client         lsps1/client.rs, LSPS1ClientHandler
--   Lsps1/Outbound       lsps1/service.rs, OutboundRequestState and OutboundCRChannel
--   Lsps1/Service        lsps1/service.rs, LSPS1ServiceHandler
--   Lsps1/Order          lsps1/utils.rs, and the comparison of orders of lsps1/msgs.rs
--   Lsps1/Msgs, Event    lsps1/msgs.rs and lsps1/event.rs
--   Lsps2/PaymentQueue   lsps2/payment_queue.rs: the HTLCs that are held back, by payment
--   Lsps2/Split          lsps2/service.rs, calculate_amount_to_forward_per_htlc
--   Lsps2/JitChannel     lsps2/service.rs, OutboundJITChannelState and (Channel) OutboundJITChannel
--   Lsps2/Service        lsps2/service.rs, LSPS2ServiceHandler: its answers to waiting requests;
--                        Requests: the messages of clients; Channels: the channel manager's events
--   Lsps2/Client         lsps2/client.rs, LSPS2ClientHandler
--   Lsps2/Promise        lsps2/msgs.rs, into_opening_fee_params, and lsps2/utils.rs,
--                        is_valid_opening_fee_params
--   Lsps2/Fee            lsps2/utils.rs, compute_opening_fee
--   Lsps2/Msgs, Event    lsps2/msgs.rs and lsps2/event.rs
--   Utils                utils.rs: hexadecimal text, request ids, short channel ids, and the
--                        decimal numbers that these are printed with
--   Events, MessageQueue events.rs and message_queue.rs
--   World                what a handler acts on: its state, the two queues, and the calls that the
--                        channel manager gets
--   Base                 helpers: Boolean tests, lists, machine words, bits, bytes, maps, results,
--                        codes of values
-- (paths below src/). The other files below these hold proofs and are named for what they prove;
-- the Tests hold concrete inputs.
--
-- How the program is modelled. The handlers call into the two queues and into the channel manager
-- of the crate `lightning`, so that an operation takes a World with the handler's state and gives
-- the new World with an Outcome: done, failed with the error, or panicked. A handler that the
-- liquidity manager calls acts on the manager's queues. The channel manager is a parameter, Answers,
-- which says for each call, after the calls before it, whether it returns an error. The crates
-- `bitcoin` and `chrono` are a parameter too, Crypto: an HMAC, and the timestamp and the text of a
-- time. So are the crates `serde` and `serde_json` with the code that they derive, Serde: how each
-- type becomes a JSON value and is read from one, and how an object is written and read as text;
-- where a theorem relies on them, IsFaithful names what is documented: what was serialized is read
-- back as it was. The features of a node are a parameter, Features. The system time and the random
-- bytes are arguments. The build is the one with the feature `std` and with `cfg(lsps1)`, in release
-- mode: `+`, `-` and `sum` on an unsigned number wrap around, which is written out, and a
-- `debug_assert!` does nothing. The transitions of a just-in-time channel share the payment queue
-- behind an `Arc` with the state they leave: a transition gives the state that it leaves also when
-- it fails. A HashMap is an association list, identifiers of a fixed size are numbers, addresses and
-- invoices are opaque numbers, and a text is the list of its code points. A text that the code only
-- writes into an error is a constructor with what is formatted into it.
--
-- Every loop of the source is a structural recursion here; only the printing of a decimal number
-- runs on fuel, 20 digits, which is what a `u64` needs.
--
-- What is not modelled: the locks, since a call is one step, and so their poisoning by a panic; the
-- code that serde derives; the texts of the errors of reading, which the manager throws away; the
-- chain source, which nothing calls.
pub mod Base
pub mod Types
pub mod Utils
pub mod Lsps0
pub mod Lsps1
pub mod Lsps2
pub mod Events
pub mod MessageQueue
pub mod World
pub mod Manager
