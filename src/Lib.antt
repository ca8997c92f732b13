-- ===== src/Lib.antt =====
-- A model of SPDZ-Yao: two-party computation of boolean programs by garbled circuits, over the virtual
-- machine that the multi-party programs share, and parts of the multi-party protocol with MACs.
--
-- A boolean program runs on the machine of GC/, which is a template in its wires. The garbler
-- (Yao/YaoGarbler.cpp) runs it on YaoGarbleWire: for each AND it draws a label, encrypts the four
-- possible results and appends a gate to a buffer; for each revealed bit it appends a mask. When the
-- machine breaks, the buffers are sent. The evaluator (Yao/YaoEvaluator.cpp) runs the same program on
-- YaoEvalWire with the buffers received, and alone gets to know the revealed values.
--
-- Files:
--   Base            lists, results, order and the exclusive or of numbers, for all other files
--   Key             BMR/Key.h, in the build without __PRIME_FIELD__: a key is two 64-bit lanes
--   Function        BMR/common.h: truth tables
--   Gc/Phase        what a wire type offers to the machine (`class Phase`, BMR/Register.h)
--   Gc/Processor    GC/Processor.h, GC/Memory.h: registers and memories; code is `M`, a function from
--                   a processor to an error or a result with a processor
--   Gc/Machine      GC/Machine.cpp and `Processor::reset`
--   Gc/Secret       GC/Secret.cpp, GC/Secret.h, GC/Secret_inline.h: operations on secret registers
--   Gc/Instruction  GC/instructions.h, GC/Processor.cpp, Math/Integer.h
--   Gc/Program      `Program::execute` of GC/Program.cpp
--   Gc/Plain        the specification: the same machine on bits instead of wires
--   Yao/Primitives  the generator and the hash (Tools/random.h, Tools/MMO.h), as parameters
--   Yao/Gate        Yao/YaoGate.h, Yao/YaoGate.cpp
--   Yao/GarbleWire, Yao/EvalWire  the wires, and the fields of the parties that they change
--   Yao/Phases      the two wire types as template arguments of the machine
--   Yao/Ands        `andrs` of both wire types: few gates one by one, more in a batch
--   Yao/Protocol    the runs of Yao/YaoGarbler.cpp and Yao/YaoEvaluator.cpp
--   Yao/Agreement   wires of the two parties and the bit that they stand for
--   Yao/Simulation  the three machines side by side, from lists up to programs
--   Yao/Correct, Yao/Outputs, Yao/Steps  whole runs, and single operations
--   Tools/Length    Networking/data.h: numbers as octets
--   Tools/OctetStream  Tools/octetStream.h and Tools/octetStream.cpp: the buffer, with what it holds
--                   (Content), writing (Laws) and numbers (Numbers)
--   Tools/FlexBuffer  Tools/FlexBuffer.h and Tools/FlexBuffer.cpp: message buffers, the store of received
--                   messages as a queue (Store), and buffers as streams (Stream)
--   Tools/WaitQueue  Tools/WaitQueue.h: a queue between threads (Steps: what the threads do; Takes and
--                   Safety: the lemmas on one consumer)
--   Math/Value      what Math/Share.h and Auth/MAC_Check.h take from their type `T`, with its laws
--   Math/Share      Math/Share.h and Math/Share.cpp: shares of values and of their MACs, all shares
--                   together (Opening, Sharing), and computations of the players alone (Affine)
--   Auth/TreeSum    Auth/MAC_Check.h: the players sum vectors along a tree
--   Auth/MacCheck   Auth/MAC_Check.cpp: opening values and checking their MACs, at one player (Opening),
--                   at all (Check), and in sessions (Sessions, Honest, Reachable)
--   Auth/TreeOpens  the tree and the check together
--   Auth/Passing    class Passing_MAC_Check of Auth/MAC_Check.cpp: sums passed around a ring
--   Auth/Direct     class Direct_MAC_Check of Auth/MAC_Check.cpp: shares sent to all
--   Ot/BitVector    OT/BitVector.h and OT/BitVector.cpp: bits in octets, and on streams (Streams)
--   Math/Mpn        what Math/ calls of the multi-precision library, with its documented behaviour
--   Math/Limbs, Math/Congruence, Math/Integer  numbers in limbs, remainders, and signed integers
--   Math/ZpData     Math/Zp_Data.h and Math/Zp_Data.cpp: sums (Sums), Montgomery's multiplication (Reduce,
--                   Mont) and init (Init) on well-formed states (WellFormed)
--   Math/Modp       Math/modp.h and Math/modp.cpp: elements of a prime field and the residues that they
--                   stand for (Encodes), arithmetic (Arithmetic, Constants, Field), conversions
--                   (Convert, Ints), powers (Power) and streams (Streams)
--   Math/Gfp        Math/gfp.h: field elements as values of Math/Value (the laws: Math/Modp/Laws)
--   Tools/Commit    Tools/Commit.cpp: commitments, made and opened (Opening), and opened twice (Binding)
--   Auth/Seeds      Create_Random_Seed of Auth/Subroutines.cpp (Agreement: all players make one seed)
--   Tests           concrete inputs
--
-- A clear register or an integer is the pattern of a 64-bit `long`; arithmetic wraps as the compiled
-- code does. An access that C++ leaves undefined is the error `fault`. Instructions name registers, so
-- that a result may be an operand; `op` is split at the point where it has overwritten its target. A count of
-- Auth/MAC_Check.cpp that is not below 2^31, the bound of its `int`, is a `fault` too.
--
-- In the multi-party protocol (SPDZ), every value is a sum of shares, and so is its product with a key
-- of which every player has a share too. Players add shares and multiply them by constants alone
-- (Math/Share.h), open values by summing them along a tree, and later check all the opened values at
-- once by a random combination (Auth/MAC_Check.cpp). The models of single players are composed by
-- giving each the messages that the others' models send.
--
-- `execute_loop` and the runs are on fuel: `rounds` instructions for each execution, `messages`
-- executions. The theorems give the parties the fuel of the plain run and show that they end with it. The
-- rounds of the tree are on fuel, for which the number of players is enough, and so is the loop of
-- `Power`, for which the exponent is enough.
--
-- The values of the protocol may be elements of a prime field: arrays of 64-bit limbs, most often in
-- Montgomery's form (Math/modp.cpp over Math/Zp_Data.cpp). The functions of the multi-precision library
-- are a parameter, `Mpn`; what holds is said of the residues that arrays stand for.
--
-- Not modelled: several threads for an ANDRS of at least `get_threshold()` gates; DIVINT, PRINTSTR and the
-- instructions for input, dynamic memory, the stack, arguments and timing; the parser of bytecode;
-- sockets, of which only the order of messages matters here; opening by
-- threads (Auth/Summer.cpp) and the broadcast of the sums; and the rest of the
-- repository (BMR, binary fields and inversion in prime fields, the arithmetic machine, the offline phases, the compiler).
pub mod Base
pub mod Key
pub mod Function
pub mod Gc
pub mod Yao
pub mod Math
pub mod Auth
pub mod Ot
pub mod Tools
pub mod Tests
