-- ===== src/Lib.antt =====
-- Verification library of the CS 4400 assignments (University of Utah, fall 2018).
--
-- The repository holds six independent programs. They share no state; what
-- the parts of one program share is said at the part.
--
-- server/: a web server that keeps which people are pinned to which places.
--   Server.Key: the hash functions and the two comparisons of server/dictionary.c.
--   Server.Dictionary: the hash table itself (`dictionary_t` is the record `Dictionary`, an entry
--     of `keys` is a `Slot`, a `void *` is a `Pointer`). `hash_op` returns the new table, its
--     result, and the values that it passed to `free_value`, in order. Its two `while` loops are
--     `probe`, whose fuel is the number of slots: a step is odd and the size is a power of two, so
--     that many rounds visit every slot, and an empty one is always left. `hash_op` calls itself
--     only to fill a larger table, which never grows again, so a depth of 2 is enough. Children:
--     Slots (counts), Search (the loop), Valid (the invariant), Write, Put and Present (single
--     writes), Lookup (a call that does not grow), Grow, Laws and Reads (the operations).
--   Server.MoreString: server/more_string.c. A C string is the list of its bytes in front of the
--     NUL; a buffer of `malloc` is its size, and a write behind it makes the result `none`, as does
--     an `int` counter of the encoders, the decoder and `split_string` that passes 2 ^ 31 - 1.
--     Query, Entity, Split, Line and Append hold a family each, and Fields the parsers that fill a
--     hash table; a round of `parse_query` takes a byte, so the bytes and one more are enough fuel.
--   Server.Table: the hash table as its callers see it, a lookup and its laws.
--   Server.Connection: how a connection is read, and how what reads from it ends.
--   Server.Redpin: the tables `people` and `places` of server/redpin.c and the loops of /pin, /unpin
--     and /copy; a table inside them is a number, and its use after it was freed makes the result
--     `none`. Children: Links (who is linked to whom), Pinned, Cut and Unpin (the loops), and
--     Request: `serve_request` from the path and the query to the header and the body, with Serve,
--     Keeps and Answer for its parts. Doit is what stands around it: `doit`, from the request line
--     on, `read_requesthdrs` and `read_postquery`, on a connection that is a record of operations
--     (Query, Runs). The loop over the headers ends with their blank line: the lines in front of it
--     and one more are enough rounds. A /copy calls `get_server_results` on a connection to another
--     server; the connections are a parameter, and so is what other requests do to the tables while
--     `data_sem` is released meanwhile.
--     Remote is `get_server_results` on such a connection, with Trip for an answer
--     that the server itself writes, whose header takes six rounds.
-- match/: a matcher for command-line arguments.
--   Match: `matchA`, `matchB` and `matchC` of match/matchlab.c. A loop that compares bytes has the
--     number of bytes to compare as fuel. Children: Shape and PatternA (the texts that `matchA`
--     accepts), Program (`main` and the conversions).
-- linking/: a checker that patches a shared library.
--   Linking.Decode: `decode` of linking/decode.c on the bytes from `code_ptr` on, one function per
--     group of opcodes; Fine states what every decoded instruction satisfies.
--   Linking.Crash: `replace_with_crash` on the mapped file.
--   Linking.Enforce: `check_function` of linking/enforce.c. A pointer into the mapped file is a
--     place in it. A round moves forward and so does the recursive call, whose displacement the
--     decoder reads unsigned, so the bytes left in the file and one more are enough fuel (Ends): it bounds the
--     depth of rounds and calls, not their number, which a conditional jump may double. What the
--     uninitialised `jump_ins` holds is a parameter.
--   Linking.Tables: the lookups of linking/enforce.c in the section headers, symbols and relocations,
--     and `enforce`, which follows every function from the status 0; Ends states that it ends.
-- shell/: a game in which players look for a position on the board.
--   Shell.Io: the lines of the game, shell/io.c.
--   Shell.GameMaker: shell/game_maker.c. A round of the loop over the moves takes input or puts all
--     players out, so the bytes of the input and two more are enough fuel. Children: Turn, Ends and
--     Kept (the loop), and Place, `main` from its arguments on, with Bounds and Whole; how often a
--     position is drawn until it is on the board depends on the random numbers, a parameter.
--   Shell.Tournament: shell/run_tournament.c. The processes and pipes at the other ends are a record
--     of operations, and so are the byte behind the buffer of the replies, which `strcmp` reads, and
--     the size of the block that `memset` clears. The loop over the turns of a round has no bound of its own; for players that
--     can write `b` more moves among them, (b + n + 1) * n rounds are enough for `n` players
--     (Circle, Ends). Results counts wins and losses; Referee puts the game maker of
--     shell/game_maker.c at the other end and compares the two loops.
--   Shell.Players: the searches of shell/step_player.c (and shell/fumble_player.c) and
--     shell/scan_player.c. Writing a position and reading the answer is a parameter, for which the
--     theorems take the game maker's turn. A loop toward MAX_POSITION has as many rounds as are left
--     to it. Children: Walks (one coordinate), Wins, Scan, and Hover: the loop and the last line of
--     shell/garbled_player.c and shell/distracted_player.c.
-- performance/: image kernels.
--   Performance: the kernels of performance/kernels.c. A loop runs over the list of the values of
--     its variable. Children: Grid (places in the array), Draw (pictures drawn in any order), Pinwheel
--     and Glow.
-- malloc/: a memory allocator.
--   Malloc: all of malloc/mm.c. Memory is a function from an address to a word. The search of
--     `mm_malloc` has the nodes of the free list, and one more, as fuel. Children: Links (segments
--     of a doubly linked list), FreeList and Replace (the operations on the free list), Place (what
--     `place` leaves of the list), Fit (the search and the block size). No theorem speaks of how the blocks tile the heap.
-- Base: the tests, list lemmas, C strings and the arithmetic of probes (Base.Cycle) that the
--   parts share.
-- Tests: runs on concrete inputs, and the theorems at such inputs.
--
-- Integers are natural numbers; where the source relies on wrap-around or on signed values the
-- definition writes it out, and where it relies on a bound the file's comment names the bound.
-- Allocation is taken to succeed.
--
-- Not modelled: server/csapp.c and shell/csapp.c, copies of the course's wrapper library; sockets,
-- threads, signals and files, and with them `main` of server/redpin.c, and the processes that the
-- tournament starts; shell/random.c, a copy of a library's generator; shell/jump_player.c and
-- shell/unreliable_player.c; the drivers and timers of malloc/ and performance/; the mapping of
-- the library's file and the layout of the tables in it; the small programs in linking/ that only
-- call the code under test.
pub mod Base
pub mod Server
pub mod Match
pub mod Linking
pub mod Shell
pub mod Performance
pub mod Malloc
mod Tests
