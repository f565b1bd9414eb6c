-- ===== src/Lib.antt =====
-- RS-Quant (QuantDesk): the order path, the account ledger, the order book, the raw journal, the queue
-- simulation and the emergency workflows of a deterministic trading engine.
--
-- The program feeds one ordered sequence of events through reducers. Market messages build the
-- order book; an approved intent becomes an order of the OMS, with a reservation in the ledger and a
-- command in the outbox; the gateway's and the venue's reports come back as events that advance the
-- order. The ledger books what the venue executes, charges and pays as balanced transactions, and
-- keeps the positions. Raw messages are journaled before they are read, and a restart scans the
-- journal. The protection manager reviews the stop of every open position, and the emergency
-- workflows latch entries and flatten positions. The simulator fills orders from recorded markets.
--
-- Files, with the sources they model under src/quantdesk/:
--   Base                 shared helpers: tests, results with errors, lists, dicts, integers, sorting,
--                        lists kept sorted by a key, and postconditions of results (Base/Ensures)
--   Core/Types           core/types.py, payloads of core/events.py
--   Core/Clock           core/clock.py: the clocks and the scheduler; Monotone proves
--   Portfolio/State      the records of portfolio/positions.py, events.py, ledger.py and event_store.py
--   Portfolio/Amounts    exact_sum of portfolio/arithmetic.py; Instruments is venues/instruments.py
--   Portfolio/Positions  apply_fill of portfolio/positions.py; Legs proves
--   Portfolio/Ledger     Ledger.apply of portfolio/ledger.py: Facts is its input, Reserve and Observe the
--                        branches that book nothing, Evidence, Known and Book those that do, Apply
--                        the whole.
--                        Postings, Balanced, Sums and Statement are about balances, Closing about
--                        reservations, Matches, Replay and Duplicates about events that come again
--   Persistence/RawJournal  persistence/raw_journal.py: Bytes is the packing of integers, Metadata
--                        _validated_frame_ordinal, Scan is _scan and the encoding in append; Frames,
--                        Recovery, Chunks and Torn are the proofs
--   Execution/OrderState execution/order_state.py; Execution/Intents execution/intents.py
--   Execution/Oms        execution/oms.py: Lookup is _find_order, _put_order, _command_status and
--                        _resolve_command; Link is _link_and_project; Reports and Commands are the
--                        branches of OMS.apply; Change is _reservation and _change; Apply is OMS.apply;
--                        Approve is OMS.approve and OMS.replace_order. Orders and Advance carry the
--                        invariant of the orders through every branch, Dispatch that of a command that
--                        was claimed, Lots and Approval are about lot counts and approvals.
--   Execution/Protection ProtectionManager.evaluate of execution/protection.py; Safety and Deadline
--   Execution/Permits    the permits of DispatchAuthority in execution/router.py; Once proves
--   Data/Json            what json.loads returns
--   Data/Book            data/orderbook/: Sequence is sequence.py, Levels validator.py and canonical_int
--                        of data/canonical.py, Builder and Apply builder.py; Validity, Runs, Broken and
--                        Delta are the proofs
--   Simulation           simulation/liquidity.py (Liquidity) and queue.py (Queue; Trades proves)
--   Risk                 risk/emergency.py (Emergency; Flatten proves) and risk/limits.py (Limits;
--                        Conditions states what its checks ask for, Admission proves)
--   Each Tests module applies the theorems to concrete inputs.
--
-- How the code is modelled. A Python string that is only compared, sorted and tested for
-- emptiness is its number in the order of strings, 0 for the empty one (Core.Types.Ident).
-- Lots, prices and times are ℕ, and positions, which are signed, are ℤ; Python's ints do not
-- wrap. `max(0, a - b)` is the truncated difference. A dataclass is a record and `replace` a
-- record update; a dict is an association list in insertion order. An exception is an error of
-- Result, and the state that it leaves is written out: an OMS event that raises changes
-- nothing, and a book builder keeps what it assigned before. Loops over finite lists are
-- structural recursions. The scan of the raw journal advances by the sizes that it reads: it
-- has as many rounds as there are bytes, since a frame has at least 20 of them.
--
-- Parameters. What Python's library computes is a parameter: the decimal arithmetic, SHA-256,
-- the JSON text under canonical_bytes and the splitting of identities
-- (Execution.Oms.Same.Externals), json.loads, SHA-256 and the reading of a text as a number
-- (Data.Book.Builder.Library), the equality of decimal texts in the protection manager, the
-- rounded float of the proportional depth reduction, decimals, digests and the order of strings
-- in the ledger (Portfolio.Ledger.Facts.LedgerLibrary), and CRC-32 and JSON in the journal
-- (Persistence.RawJournal.Metadata.JournalLibrary). The risk limits compare and divide decimals
-- through Risk.Limits.RiskDecimals, whose operations may raise. The accounting context, which traps
-- overflow, computes averages and profits (Portfolio.Positions.Context): its results are Options,
-- and none is the exception. Of the decimal library IsDecimal says that negation is exact, what
-- `adjusted` and the digits of a number bound, and that a sum is exact in a context which holds all
-- its digits. The contexts of exact_sum and exact_product have the widest exponents that the library
-- has; that a result leaves even these is not modelled. Of JSON IsJson says that what was written is
-- read back; of CRC-32 IsCrc says that it has 32 bits. The text of a dispatch attempt is a function of its ordinal and instruction, from which the ordinal can be
-- read. Nothing is assumed of the others. The heap of heapq, which returns its least entry, is
-- a sorted list.
--
-- Not modelled. The decoding of payloads and the checks of their constructors, checkpoints as
-- bytes, the type tests on fields that a typed record has anyway, the reducers that register
-- these components with the engine, risk sizing and arbitration, the simulated venue,
-- Ledger.snapshot, decode and _check of the dispatch authority, the files of the journal and
-- the databases, the API, research and the web client.
pub mod Base
pub mod Core
pub mod Portfolio
pub mod Execution
pub mod Data
pub mod Simulation
pub mod Risk
pub mod Persistence
