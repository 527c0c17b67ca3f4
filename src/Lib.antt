-- ===== src/Lib.antt =====
-- A verification library of autark, a build system driven by scripts.
--
-- The program reads a script into a tree of nodes, evaluates the nodes against environments of
-- variables, and runs build rules whose dependency records tell what is out of date. Below this
-- stand a few data structures that all parts use: an array list, growing strings, a map, value
-- lists (strings with several items in them) and the functions on the text of paths. The library
-- models these from the source, function by function.
--
-- Prelude, Prelude/*: the numbers, lists and Boolean tests used everywhere; memmove, memcpy and
--   realloc on lists of cells (Memory), C strings as lists of bytes without their final zero
--   (Strings), and texts of items between separators (Split).
-- Ulist, Ulist/*: ulist.c, ulist.h. `Ulist` is struct ulist; each function ulist_x is `x`. The
--   block is a list of cells, a cell that was never written is `none`, and unsigned sums are
--   taken modulo 2 ^ 32. Ulist.Holds says that a list holds given units; the other modules show
--   what each function does to them, and Ulist.History what any sequence of calls does.
-- Utils.Text: the inline string functions of utils.h. Utils.Vlist: the value lists of utils.h
--   and ulist_to_vlist of ulist.c. Utils.Words: utils_split_values_add of utils.c. Utils.Json:
--   utils_json_escape_str of utils.c.
-- Xstr, Xstr/*: xstr.c, xstr.h. `Xstr` is struct xstr, with its buffer as a list of cells; sizes
--   are taken modulo 2 ^ 64. The loop that doubles the buffer gets two rounds, and a theorem
--   shows that its test fails after the first.
-- Script.Text: _preprocess_script and _text_escaped of script.c. Script.Tree: _rule_type,
--   _node_text_push, _node_text_escaped_push, _rule and _finish of script.c, the actions of the
--   grammar scriptx.leg. Nodes are compared by their index where the program compares pointers,
--   and `child` and `next` are a list of nodes.
-- Deps, Deps/*: deps.c, deps.h, and utils_strtoll of utils.c. `Deps` is struct deps with the
--   contents of its file, cut at the position of reading; the state of the files, the working
--   directory and the environments are parameters. A line fits in the buffer of DEPS_BUF_SZ
--   bytes.
-- If, If/*: _if_pull_if and _if_pull_else of node_if.c and node_find_prev_sibling of script.c,
--   on a heap: nodes are numbers and `child`, `next` and `parent` are functions from nodes to
--   nodes or null. The loops get fuel, and the theorems say how much is enough.
-- If.Cond: the evaluation of conditions in node_if.c, on what it reads of the nodes; what
--   node_env_get finds is a parameter.
-- Values, Values/*: the values of the nodes of node_join.c, node_basename.c and node_dir.c, from
--   the values of their children.
-- Map, Map/*: map.c but for its iterator. A table is a function from slots to entries; the probe
--   loops get as many rounds as the table has slots. What kv_free_fn is called on is recorded in
--   `freed`. Map.Probe states the invariant of a table, Map.Close is the removal of an entry,
--   Map.Resize the copy into another table, and Map.Refine says which function from keys to
--   values a map holds.
-- Build, Build/*: node_build, node_post_build and node_setup of script.c. The nodes of a script
--   are numbers with the nodes below each; the callback of a node is known by the nodes that it
--   passes in its turn, which may depend on all that has happened, and comes to an end itself.
--   node_fatal is the outcome `cyclic`. The passes recurse on fuel, and run out of it as
--   `endless`: theorems say how much is enough. Build.Invariant states what node_build keeps,
--   Build.Ends and Build.Cycle what a cycle does, Build.Setup is the pass of node_setup, and
--   Build.Phases is script_build behind node_init.
-- Env, Env/*: the variables of units (autark_core.c) and node_env_get, node_env_set and
--   node_env_set_node of script.c, over the map of Map. A node is known by the units at it and
--   at the nodes above it; what node_value and getenv return is a parameter.
-- Products, Products/*: the registry of products of script.c (node_product_add,
--   node_product_add_raw, node_by_product, node_by_product_raw) over the map of Map, the value
--   lists of Utils.Vlist and the paths of Paths. `taken` is the end of the program at a product
--   of another node.
-- Pool, Pool/*: pool.c but for pool_printf and pool_destroy. Memory is numbered blocks of bytes;
--   whether xmalloc can give a block is a parameter. Pool.Grant is one allocation, Pool.History
--   any sequence of calls.
-- Paths, Paths/*: path_is_absolute, _path_needs_normalize, path_normalize_cwd,
--   path_is_prefix_for, path_join_path_alloc, path_relativize_cwd and path_basename of paths.c.
--
-- Loops that are not structural run on fuel, and return `none` without it: the loop over a value
-- list, the loop over words and the loop over path segments get one round more than the text has
-- bytes, and theorems show that this is enough. The end of the program by akfatal is `none`.
-- PATH_MAX is 4096.
--
-- Not modelled: the file system, processes, logging, the generated part of the parser, node_init
-- with the changes that its callbacks make to the tree, the iterator of the map, and the parts of
-- utils.c and paths.c that are input and output. The bytes of a C string are numbers and never
-- zero; a list of bytes is taken for what stands in front of the final zero. An allocation does
-- not fail, since the wrappers of alloc.h end the program then.
pub mod Prelude
pub mod Ulist
pub mod Utils
pub mod Paths
pub mod Xstr
pub mod Script
pub mod Values
pub mod Deps
pub mod If
pub mod Map
pub mod Env
pub mod Products
pub mod Build
pub mod Pool
