-- ===== src/Lib.antt =====
-- psychic_fiesta: a checkers game for two over the network. A `Board` (src/game/board.rs) holds the
-- 32 dark squares as rows of a window model, searches the legal moves of the player, performs a
-- move and marks squares; the peers exchange moves as packets (src/net/p2p/mod.rs).
--
--   Game     src/game/mod.rs, with the types of ui/piece.slint that it includes: colours, pieces,
--            `Move` and its reversal (Game/Reverse), directions.
--   Legal    `check_move` of src/game/board.rs. Its body is cut at its tests: `check_body` up to the
--            next tile, then `at_tile`, `take_piece` with the loop `further_moves`, and `step_to`.
--            Legal/Spec says what a found move may claim, and Legal/Tours what the moves of a piece
--            are. Legal/Taken, Sound, Ends, Panics and Geometry are about the first; Legal/Listing,
--            Further, Ahead, Taking, Tile, Exact and Total compare the search with the second.
--   Rows     `slint::VecModel`, a parameter: its documented behaviour as the fields of a record. A
--            list is an instance.
--   Board    the rest of src/game/board.rs: `Board` and its operations; Board/Moves has
--            `get_legal_moves_piece` and `get_legal_moves`, Board/Lawful what the player may play. The
--            static `BOARD_MOVE` is the record `Globals`.
--   Packet   src/net/p2p/mod.rs: packets to and from bytes, with `PacketError` of
--            src/net/net_utils.rs. A `String` is its UTF-8 bytes (Packet/Text).
--   Queue    src/net/p2p/queue.rs: the outgoing queue, the transaction table and the incoming
--            actions. Two locks in one call let other tasks in between them: what those do is an
--            argument `others`; drawing an id locks the table for each draw. The loops that draw ids
--            and wait have fuel, and the theorems on them name the round that ends them.
--   Play     src/game/data.rs: `GameData`, a click, a performed move and the opponent's action. The
--            actions sent and the waiting tasks are a log and a count. Play/Reached has every state of
--            a match between two such games, Play/Mirrored what it is for boards to be mirrored, and
--            Play/Rules a game of checkers without messages, with which a match is compared.
--   Screens  src/game/data.rs: hosting and joining, their tasks, and what the window shows. Slint's
--            event loop, and whether the window is still there, are arguments.
--   Address  addresses and ports. Status: src/net/status.rs, the static record of the connection.
--   Lan      src/net/net_utils.rs: the port, the local address and the join code. The `hex` crate,
--            the sockets and the network interfaces are parameters; Lan/Digits meets the first.
--   Network  src/net/p2p/net_loop.rs and communicate.rs: one round of each task, for the host
--            (Network/Host) and the client (Network/Client). `Peer` is a process's statics.
--   Interface  src/net/interface.rs: what the game calls. Interface/Hosting has every state that a
--            host reaches, Interface/Playing every one of a client; Interface/Joining and
--            Interface/Delivery compose both processes.
--   Prelude  lists, options, integers and `Outcome` over the native numbers.
--
-- A call returns an `Outcome`: `done`, `panic` (an index out of range, a failed `assert!` or
-- `unwrap`), `undefined` (`unwrap_unchecked` of `None`), or `stuck`, which is no end of the program
-- but the model's fuel used up. `check_move` recurses on fuel, 272 from its callers: a call that
-- jumps takes a piece off the board and a step leads to the next of at most eight rows, so that
-- eight times the pieces on the board and the rows ahead, at most 8 * 32 + 7, bound the depth. The
-- decoders return `Parsed`: `ok`, `err` or `panic`. The other loops run over lists or count down.
-- `usize` is a number, and where the program subtracts, `usize_sub` has both builds: `checks` says
-- whether an underflow panics or wraps. `as u8` is written out as `% 256`.
--
-- In `connect_to_host_loop` the fuel counts the requests, and each draw of an id has its own; one
-- of each is enough where the first request is answered and the first id drawn is free. `Instant`s
-- are milliseconds.
--
-- Not modelled: the windows (ui), but for the properties that src/game/data.rs sets, the spawning of
-- tasks and the sockets and timers around these parts, the programs and the build, and the
-- printing. A handler of src/net/p2p/net_loop.rs is one step: no other task changes the
-- connection within it.
pub mod Prelude
pub mod Game
pub mod Legal
pub mod Rows
pub mod Board
pub mod Packet
pub mod Queue
pub mod Address
pub mod Status
pub mod Lan
pub mod Network
pub mod Interface
pub mod Play
pub mod Screens
