-- ===== src/Lib.antt =====
-- VNPForth compiles Forth to native x86 code: the lexer and the grammar (compiler/forth.l, forth.y)
-- call the handlers of the parser (compiler/parser.cc), which turn source text into symbols, literal
-- data and a table of opcodes for a machine of two registers and three stacks; `synthesize_main`
-- gathers the code outside of definitions (compiler/optable.cc); the optimizer rewrites the table
-- until a round finds nothing to do (compiler/optimize.cc); the code generator prints assembler
-- text.
--
-- Prelude       shared names, Boolean tests, lists measured by native numbers.
-- Mangler       compiler/mangler.cc: `mangle` and `demangle`. A string is the list of its bytes. Its
--               children hold the table of entities, what a byte is spelled as, and the reading back.
-- Symbol        compiler/symbol.h. A pointer to a symbol is the symbol; its id is its identity.
-- Opcode        compiler/opcode.h, operand.h, register.h, stack.h. An opcode is its class with the
--               class's fields, its line and the opcode that it optimizes away; `int` values are
--               32-bit patterns.
-- Data          compiler/data.cc, dattable.cc and the read-only data of codegen.cc: literal data, the
--               table that keeps equal ones together, and the lines of assembler with their labels.
--               The assembler is a parameter, with how it reads a string as a hypothesis.
-- Parser        compiler/parser.h and compiler/parser.cc. The state is the Parser object with the
--               symbols, opcodes and data of the tables that it fills; a failed `assert` is `none`.
--               `Mangler::mangle` is a parameter, given in the tests. `Control` has the control
--               structures, `Literal` integer literals (`strtol` for any width of long), `Strings`
--               strings, `Declarations` declarations and code words; `Syntax` has the statements of
--               forth.y with the order of their actions, `Conditions` the directives with the macro
--               `P`, which suppresses actions, and `Emission` the labels that actions emit, on which
--               the optimizer relies. `Outcome` is what a parse comes to: each action begins with the
--               macro `MNE`, which gives the parse up where 20 errors are counted.
-- OpcodeTable   compiler/optable.cc: `synthesize_main` and `unreachable_check`.
-- Semantics     the meaning of the opcodes, which the passes must keep: machines, one step, and runs
--               of a definition. External words, code words and addresses are a parameter, Runtime.
--               Its children hold the rule by which each pass is proved and the layout of a table.
-- Optimizer     compiler/optimize.cc: a module for each pass of OpcodeTable, with its proofs below
--               it. A pass that replaces opcodes where they stand is a recursion that builds the new
--               table and counts the optimizations. `Driver` is `optimize_code`.
--
-- Fuel. `exec` runs on fuel that bounds the nesting of branches and calls; a theorem about runs
-- holds for each amount. The loop of `optimize_code` has the 32 rounds of ITERATIONS_LIMIT, and the
-- loop that advances a label has one step more than there are relocations, which is proved enough.
-- The loop of `demangle` has a step for each byte of the string, which is proved enough.
--
-- Not modelled: the lexer; the parser's handlers of .", ABORT", character and float literals and
-- :NONAME; the text that the code generator prints for symbols and opcodes; the drivers and the
-- command line, the listings, messages and warnings, which do not feed back; and the runtime library,
-- whose words are a parameter.
pub mod Prelude
pub mod Symbol
pub mod Opcode
pub mod Semantics
pub mod Optimizer
pub mod OpcodeTable
pub mod Parser
pub mod Mangler
pub mod Data
