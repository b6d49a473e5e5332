-- ===== src/Lib.antt =====
-- A model of the core of molto, a build tool and package manager for C and C++.
--
-- The parts and how they interact. A frontend describes a project as a build document
-- (include/molto/services/ir_service.h). The passes of src/services/ir_transform.c put the
-- resolved packages into it, as nodes, as targets of their own and as options of the targets
-- that use them; src/services/ir_validate.c decides whether a document may be built at all; the
-- engine then compiles its targets on the pool of src/util/task_pool.c. `molto fmt --diff` shows
-- what would change by src/build/diff.c, globs select files by src/util/glob.c, packages are
-- chosen by the versions of src/util/semver.c, and diagnostics are lined up by src/util/text.c.
-- Documents and style files are read by src/util/json.c and written by src/util/json_write.c, and
-- downloads and artifacts are told by their hash, src/util/sha256.c. What a unit was compiled from is
-- read by src/build/depfile.c; maps and lists of texts are those of src/util/str_map.c and
-- src/util/str_list.c.
--
-- Files and code:
--   Util/TaskPool.antt         src/util/task_pool.c, the deque of a worker
--   Util/TaskPool/Pool.antt    its pool: a function for each stretch under a lock or atomic
--                              operation, and `Step`, which puts them in any order
--   Util/TaskPool/Pool/Scan.antt  `pool_next_task`, run alone
--   Util/Glob.antt             src/util/glob.c
--   Util/Semver.antt           src/util/semver.c
--   Util/Text.antt             src/util/text.c
--   Util/Json.antt, Json/Strings.antt, Values.antt, Access.antt beside it
--                              src/util/json.c: the document, its strings, its values, the handles
--   Util/Json/Write.antt       src/util/json_write.c
--   Util/Sha256.antt, Sha256/Rounds.antt  src/util/sha256.c
--   Util/StrMap.antt           src/util/str_map.c
--   Util/StrList.antt          src/util/str_list.c
--   Build/Depfile.antt         src/build/depfile.c
--   Build/Diff.antt            src/build/diff.c up to `build_ops`
--   Build/Diff/Hunks.antt      its printing half; Hunks/Patch.antt beside it is no code of the
--                              program: it applies printed hunks to a text, as patch(1) does
--   Services/Ir.antt           src/services/ir_service.c, the document and what adds to it
--   Services/Ir/Words.antt     its vocabularies
--   Services/Ir/Paths.antt     src/services/ir_validate.c, `normalise`, `inside`, `anchor`
--   Services/Ir/Validate.antt  its path rule, bounds and forbidden options
--   Services/Ir/Validate/Graph.antt, Nodes.antt  its graph search, node checks and `ir_validate`
--   Services/Ir/Transform.antt, Exports.antt, Fold.antt, Objects.antt beside it
--                              src/services/ir_transform.c and the helpers it calls
-- The other modules below these hold proofs; the files called Tests hold runs and examples. Base
-- has what all share.
--
-- How the code is read. A C string is the list of its bytes before the terminator, a pointer into
-- it the bytes from there on, and a pointer that may be NULL an `Option`. A function that answers
-- false is `none` or `false`, without the message that it writes. A `size_t` that can wrap, the
-- counters of the pool, is taken modulo 2^64; the others count what is in memory. The branches for
-- Windows are left out.
--
-- Fuel. `split_from`, `common_suffix`, `hunks_from`, `members_hold`, `walk_segments` and
-- `compare_from` get the length of what they read, of which each round uses a part. `match_loop`
-- of the globs gets a bound on pattern and text together: between two resumptions it reads on, and
-- each resumption leaves less text. `acyclic_from` gets one more than there are targets, as each
-- call below another opens one more. The loops of the JSON reader get the length of the text, of
-- which each round reads a character, and its nesting is counted down from the limit; a walk along
-- siblings gets one round more than there are nodes, as each leads further on. A walk along the
-- slots of a map gets as many rounds as there are slots, of which one is empty. For these, running
-- out is an answer of its own.
--
-- Parameters. realpath(3) is a function from paths to what they resolve to, without hypotheses.
-- qsort is a function on lists; that it sorts the list it is given is a hypothesis where that is
-- needed. The elements of fresh memory are an arbitrary value, and the growth of a deque may fail;
-- memory is otherwise taken to suffice. A file that is hashed is the chunks that
-- its reads give, and whether its stream failed.
--
-- Not modelled: input and output, processes, the network, the reader of TOML, the
-- resolution of dependencies, the parking and shutdown of worker threads, the release of memory.
pub mod Base
pub mod Build
pub mod Services
pub mod Util
