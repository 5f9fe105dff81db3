-- ===== src/Lib.antt =====
-- HB*Engine (server/): a database server that is compatible with dBASE. Its interpreter (server/hb)
-- evaluates expressions on a stack of typed values and calls the database engine (server/dbe), which
-- keeps tables, indices and locks in files that several processes share.
--
-- The parts that are modelled:
--   Common   Boolean tests, lists over the native numbers, and C integers: `wrap64` is the value that a
--            64-bit `long` keeps, `to_int32` the cast to `int`.
--   Dates    server/hb/date.c: `verify_date`, `yeartoday`, `date_to_number` and `n_to_mdy`, under the
--            names of the source; `isleap` of include/dbe.h is `is_leap`. The window for short years
--            that two functions repeat is `full_year`. Dates/Window has the checks of a date against a
--            calendar of its own, Months and RoundTrip the way from a date to its number and back,
--            Inverse the other way, Order the order, and Century the years that the day count treats
--            as leap years.
--   Values   include/hb.h and server/hb/int.c: `Number` is `number_t`, `Value` is HBVAL.
--            Values/Arith holds `power10`, `num_rel`, `num_add` and `num_mul`; Values/Stack the stack
--            of values with `push`, `pop_stack`, `stack_peek`, their typed forms and `uop`; Values/Bop
--            holds `bop`. The stack of the source is an area of bytes; the model keeps the values, the
--            top first, and counts their bytes against the capacity. `syn_err` and `sys_err`, which jump
--            out of the function, are the errors of `Result`.
--   Locks    server/dbe/lock.c: `rlock`, `is_rec_locked`, `r_lock`, `f_unlock`, `f_lock`, `unlock_all`,
--            `ndx_lock` and `ndx_unlock` as functions on a context and a state of the system. Locks/Truth
--            has the invariant that a context records only locks that the system holds; Locks/Release has
--            what a request grants and releases.
--   Keys     server/dbe/ndx.c: `skcmp`, `nkcmp` and `keycmp`, the comparison of index keys. Keys/Text
--            has text keys, Keys/Combined the keys of several parts.
--   Sorting  server/dbe/vsort.c: `insort`. The slots of the array of key pointers are lists, the sorted
--            part with its last slot first, as the inner loop goes over it.
--   Ports    server/hb/port.c: the numbers in buffers. One `get`, `put`, `read` and `write` for every
--            size stand behind the functions of the source.
--   Pages    server/dbe/page.c: `get_entry`, `move_entry` and `insert_entry`, and from server/dbe/btree.c
--            the part of `btsrin` that puts an entry into a page with room, `insert_in_page`, and the
--            split of a full page, Pages/Split. A page is its count and an array of entries; the count
--            of a full page is norecpp. `split` ends before the pages are written.
--   Btree    server/dbe/btree.c over a store of pages, and `insert_new` of server/dbe/ndx.c: `getpage`,
--            `btlr`, Btree/Search has `btsrch`, Btree/Insertion `btsrin` and Btree/Deletion `btsrdel` with
--            `del`; their loops are `scan`, `locate` and `seek`. Btree/Order has what an index stands for,
--            a sorted sequence of items with the functions `find`, `insert` and `erase`, Btree/Tree the
--            relation `Holds` between pages and sequences and `Apart`, that no page stands in a tree twice.
--            Btree/RoundTrip and Btree/Neighbours put an insertion or a deletion and a search together.
--            The order of the keys is an interface, `KeyOrder`, which Keys/Order fills for text keys.
--            Fuel counts the pages that a search follows; one more than the levels of the tree is enough.
--   Functions server/hb/fcn.c: the functions of the language. Functions/Codes has the codes of
--            include/hbkwdef.h, Operands `parm_chk`, Text what the functions on texts compute, Calls those
--            functions over the stack, Select `minmax`, `iif`, `between`, `int_` and `abs_`, Calendar the
--            functions on dates and times, Spell `numspell` and `spellnum`, and Dispatch the table `fcn`
--            with `fcn_call` of server/hb/int.c; functions that are not modelled are an argument of
--            it. The words of `spellnum` are a data type with their spelling; Functions/Spell/Dictionary
--            has a reader of their text with a dictionary of its own. The byte tests and the case of
--            letters are those of the C locale.
--   Lexer    server/hb/lex.c: `get_tok` is Lexer.get_tok and `get_token` is Lexer/Words; `getvarname` and
--            `getmac`, which call each other, are one function `name_len`. Lexer/InLine and Lexer/Words have
--            the lengths of tokens, Lexer/Run the tokens of a whole line. The model is the lexer of the
--            compiler (`exe` is 0), which leaves macros in the text.
--   Tables   server/dbe/db.c: the header of a table file. `write_field` and `read_field` are the bodies of
--            the loops of `write_db_hdr` and `read_db_hdr` over the fields, Tables/Header has the fixed part
--            in front of them, with the numbers of Ports.
--
-- Dates are values of the interpreter: a value `date` holds a day number of Dates, and `bop` adds days
-- to it with the arithmetic of numbers. Keys compares numeric keys by `num_rel` of Values. The
-- functions of the language take their operands from the stack of Values and leave their result there;
-- those on dates call `n_to_mdy`.
--
-- What stands for code outside the repository: `Reals` (the type `double` and the functions of the
-- mathematics library) is a parameter of Values without laws, and the reading of a `double` from eight
-- bytes one of Keys; `Os` (fstat, fcntl with F_SETLK and usleep) is a parameter of Locks, with the laws
-- `OsLaws`: a lock that is set is held, and neither a refused request nor waiting takes a lock away. The
-- comparison `qcomp` of a sort is a function pointer in the source and a parameter of Sorting.
--
-- Bounds. The theorems on dates go up to the year 5,000,000, where day numbers still fit the signed
-- 32 bits that `n_to_mdy` tests. `n_to_mdy` divides by 365.25 in `double`; the model divides by 1461/4
-- exactly, which has the same whole part for a number below 2 ^ 32. An overflow of a signed `long`, which
-- C leaves undefined, wraps here as it does on the machines that the server runs on. The retries of a
-- lock are a recursion on LRETRY, 100. All loops are recursions on lists or on such counts.
--
-- A call of `numspell` for n has the fuel n + 1; the lexer has two more than the length of the line. A
-- read outside of a buffer, which the source does in some functions for an empty text, is the error
-- `overread`, and a division by 0 the error `sigfpe`.
--
-- Not modelled: the functions of the language that read tables, locks or the system, `round_`,
-- `mod`, the functions that turn numbers into text and back, and `spellnum` of a real, which looks
-- at the bits of a `double`; the flush of the table that comes before an unlock of the file, the log
-- of a refused lock, the locks of the table header, the execution loop and the variables of the
-- interpreter, the substitution of macros at run time, `get_command`, the parser, tables but for
-- their headers, records, the traversal of index pages (`btxrch`) and the files of indices, the sort of files,
-- transactions, and the clients; sockets, terminals and the vendored libraries under misc/ have no
-- logic of the server's own.
pub mod Common
pub mod Dates
pub mod Values
pub mod Locks
pub mod Keys
pub mod Sorting
pub mod Ports
pub mod Pages
pub mod Btree
pub mod Functions
pub mod Lexer
pub mod Tables
