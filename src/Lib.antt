-- ===== src/Lib.antt =====
-- Otus Lisp (ol) has a virtual machine in C, src/olvm.c, with its foreign function interface in extensions/ffi.c, and a
-- compiler and library in its own Lisp. This library models the machine: its words and heap, the main loop `runtime` with its
-- instructions, the search in the red-black trees that Ol calls ff, the switch of threads, the loader of compiled images,
-- and the interface of the machine. The target is a little-endian machine with words of 8 bytes, `W == 8`.
--
-- Parts, and how they interact:
-- * Word models the words: immediate values, references, and the headers of objects, with the masks and shifts of the macros
--   (make_value, make_header, hdrsize, thetype, ...) written as they are there. Word/Sign has uvtoi, itouv, svtoi and itosv.
-- * Heap models heap_t and the allocators (new, new_pair, new_list, new_tuple, new_bytevector, new_string, ...). A heap is
--   its four pointers and a function from byte addresses of words to words; `fp` is the allocation pointer.
-- * Number models the conversions between machine integers and numbers of Ol that may have two digits.
-- * Machine has the registers and local variables of `runtime` and the ways in which an instruction leaves the loop's body:
--   the next instruction, the labels apply, error and done, `ol->exit`, or no behaviour that C defines.
-- * Op has one function for each instruction, by what they do: Alu, Move, Make, Query, Access, Cast, Node,
--   Control and Ambient (clock and version). Op/Float has the floating-point instructions and `ol2d`, Op/Float/Exact has `d2ol`.
-- * Ff models `get`, the search in a tree, and says which tree a word stands for.
-- * Gc models the collector: `chase`, `mark` and `sweep`; Gc/Resize has `resize_heap`, `gc` and `OL__gc`, with `realloc` of
--   the C library as a parameter. `mark` threads the references to an object into a chain, and `sweep` turns them back: Gc/Threads
--   says which memory a list of threaded fields stands for, Gc/Chase, Gc/Visits and Gc/Marking follow `mark` through it, Gc/Unthread,
--   Gc/Slide, Gc/Sweeping and Gc/Rows follow `sweep`, Gc/Compact puts them together. Gc/Tidy says what a collection relies on,
--   Gc/Observe what a program can see of the heap, and Gc/Registers is about the registers as the roots.
-- * Runtime puts the instructions together: the `switch` is a table from opcodes to instructions, `step` takes one from the
--   code, Runtime/Apply is the label `apply:`, and `execute` follows the labels for a number of steps.
--   Runtime/Growth, Runtime/Immutable and Ff/Persistence are about what all instructions leave alone.
-- * Sys models the instruction `syscall`: Sys has `read`, `write`, `brk` and `prctl`, its children the calls on files, the network,
--   processes, the machine itself and dynamic libraries, and Sys/Calls the table of them; the functions of the system are parameters.
-- * Ffi models `OL_ffi` of extensions/ffi.c: Ffi/Arguments makes words and arrays of the arguments, Ffi/Results writes arrays back and makes
--   an object of the result; Ffi/Callback models `callback`, the call of a function of Ol from native code.
-- * Fasl models the loader: `get_nat`, `decode_field`, `deserialize`, `decode_word` and `count_fasl_objects`. Fasl/Image says what
--   an image is for the compiler that writes it.
-- * Talkback models `OL_tb_eval` of extensions/talkback/talkback.c and the answers of the machine, which runs in another thread,
--   as a relation of steps that interleave.
-- * Api models `OL_new`, `OL_run` up to the main loop, and the setters of callbacks. Api/Arguments says what the list
--   of arguments is, and Api/Boot what a machine made of an image and started is.
--
-- Numbers are natural numbers below 2 ^ 64 where the code has words, with the wrap-around written out. `int` counters are taken
-- with their sign where the code compares them with 0. The conversion of a word to an `int` wraps around; where
-- an `int` or an intptr_t itself overflows, which C leaves open, the counts of the loader have no result, and the least
-- intptr_t is its own opposite, as on the machine. `runtime` keeps `fp` in a local variable and writes it back before
-- every call that reads it, so the model has one field for both.
--
-- Loops: those of the loader take the bytes of the image as a list, and end where the list does; `get_nat` reads on through
-- the list. `get`, the walk along a list and the collector follow pointers, and run on a bound for their rounds. The bound
-- for `get` and for lists is `fp`, since a chain of distinct objects has no more links than the heap has addresses. `execute`
-- takes the number of steps that are wanted.
--
-- Not modelled: what a system call changes outside the machine, and the machine code that make-callable writes (both are parameters); the
-- call of a native function in extensions/ffi.c, which is assembly, with the conventions of processors other than x86-64; the
-- arithmetic of floating-point numbers, which is a parameter of Op/Float, and their conversions in extensions/ffi.c, which
-- are parameters of Ffi; the start and the stop of the thread of extensions/talkback, and the pipes to it; and the compiler and the libraries, which are Lisp.
pub mod Common
pub mod Word
pub mod Gc
pub mod Heap
pub mod Number
pub mod Machine
pub mod Op
pub mod Ff
pub mod Runtime
pub mod Fasl
pub mod Api
pub mod Sys
pub mod Ffi
pub mod Talkback
pub mod Tests
