-- ===== src/Lib.antt =====
-- A model of cript, an interpreter of a small script language written in C, with its proofs.
--
-- The program (under src/ of the repository) reads a script with the lexer and the parser of parse.c, which
-- emit instructions through the builder of ir_builder.c; the builder keeps basic blocks, with tables of the
-- constants it knows, and strings them together to an instruction list (inst_list.c). The virtual machine of
-- cvm.c runs the list on frames of registers. Its values are tagged words (value.h); objects, arrays and
-- closures are hash tables (hash.c) in the heap of young_gen.c, and strings live in string_pool.c.
--
-- The files:
--   Prelude, Word      what all share: tests, lists, runs that can trap or not end, 32-bit arithmetic
--   Value              value.h: the tags, packing and unpacking
--   Hash               hash.h, hash_internal.h, hash_helper.h, hash.c: the open-addressing tables. A table is
--                      the record `Hash` with its slots in a list; a slot whose value is null is empty, one
--                      whose value is undefined is deleted. `Hash/Table` says when a table is well formed.
--   Inst, InstList     inst.h, inst_list.c
--   Table              what the builder and the parser ask of hash tables; `Hash/Ops` gives it by hash.c
--   Ir                 ir_builder.h, ir_builder.c: the blocks are a list, a pointer to a block is a position;
--                      `Ir/Link` is `ir_builder_destroy`
--   Linked             list.h: nodes and lists in a memory, with pointers to fields; `Linked/Chain` says which
--                      sequence a list stands for
--   Scan               the walk through a table by open addressing
--   StringPool         string_pool.h, string_pool.c: the table of the strings and the pages; the address that
--                      malloc gives a page is an argument. `StringPool/Intern` says when a pool is well formed.
--   Lex                the lexer of parse.c (`_lex_parse_number` to `_lex_next`); the text is the list of the
--                      bytes from `current` to `limit`. It is generic in the pool of strings; `Lex/Pooled`
--                      gives it the string pool.
--   Parse              the parser of parse.c and parse_internal.h. A parser is a function from a state to a run;
--                      `Parse/Scopes` has the symbol tables and the captured variables, `Parse/Literals`,
--                      `Parse/Postfix` and `Parse/Operators` the expressions, `Parse/Statements` and
--                      `Parse/Branches` the statements, `Parse/Program` whole programs and the main function. It
--                      emits through `Ir` and reads through `Lex`; the pool of strings, `ir_builder_destroy` and
--                      the order of `hash_for_each` are fields of `Services`. `Parse/Rules`, `Parse/Tokens` and
--                      `Parse/Keeps` follow its sequences, for `Parse/Termination`; `Parse/Lookup` and
--                      `Parse/Captures` are about symbols, `Parse/Balance` about the scopes and functions around.
--   Vm                 cvm.c. `Vm/Registers` and `Vm/Frames` are the instructions on registers, jumps and returns
--                      over the frames of one scene. `Vm/Heap` is the heap of young_gen.c, a function from
--                      addresses to objects; `Vm/Objects` the state of the machine, with the topmost frame taken
--                      out of its list, and the objects; `Vm/Calls` calls, closures and the loop of
--                      `cvm_state_run` with all instructions; `Vm/Scenes` what the host uses; `Vm/Start` the machine
--                      that is made from a parser's state. The collector and
--                      the functions of the host are arguments of these definitions. `Vm/Redirects` says when a
--                      heap is well formed; `Vm/SetObject` and `Vm/Access` are about objects, `Vm/Closures`
--                      about calls.
--   Tests              runs on concrete inputs
--
-- The program is built with -m32: a word has 32 bits, and every sum, product and shift is written with its
-- remainder. The loops of `hash_find` and `hash_set` run on fuel, the capacity of the table, which is enough
-- since the probe sequence visits every slot; the loop of `_lex_peak` on the length of the text; the search
-- through dominators on the number of blocks; the chain of waiting jumps on the length of the code; a chain of
-- redirections on the bytes of the heap, since it leads upwards; the loop of `list_move` on the size of the
-- list. Loops of the parser run on the number of tokens left, which is what is left of the text and a token that is read
-- ahead; expressions and statements within one another are as deep as this number at most, since each comes after a
-- token of the one around it. A run out of fuel is the result `forever`.
--
-- Where the program chains its structures by list.h, the other files have plain lists.
--
-- Not modelled: the freeing of a parser's state and its reading of files, the collector (the code gets one as an
-- argument), how a machine is freed, is made empty or takes more of the parser's functions, the
-- library functions; printing, files and the command line. malloc does not fail.
pub mod Prelude
pub mod Word
pub mod Value
pub mod Hash
pub mod Inst
pub mod InstList
pub mod Table
pub mod Ir
pub mod Lex
pub mod Vm
pub mod Scan
pub mod StringPool
pub mod Linked
pub mod Parse
pub mod Tests
