-- ===== src/Lib.antt =====
-- pgexporter: models of the parts of the exporter that compute, and theorems about them.
--
-- pgexporter answers requests of a Prometheus server with metrics that it reads from PostgreSQL
-- servers. It reads its configuration (src/libpgexporter/configuration.c) and the definitions of
-- metrics (yaml_configuration.c, json_configuration.c). A metric has several queries, for versions
-- of PostgreSQL (pg_query_alts.c) or of an extension (ext_query_alts.c), and the query for a
-- server is looked up by its version (extension.c parses and compares those of extensions).
-- Results are put in deques (deque.c) and written as text that is checked as UTF-8 (utf8.c); the
-- response is kept in a cache (cache.c) until it expires. Maps by strings are radix trees (art.c),
-- also those in JSON texts (json.c).
--
-- The files, with paths from the root of the repository:
--   Prelude, Order, Text   shared: numbers, lists, signed integers, comparisons as an interface, and
--                          the functions of the C library that the sources call on strings (strcmp,
--                          strcasecmp, strtol, strtok, isspace and the like, %d)
--   QueryAlts              src/libpgexporter/pg_query_alts.c: Tree is struct pg_query_alts; insert,
--                          rebalance, right_rotate, left_rotate, get_alt, copy_alts and free_nodes are
--                          its functions, generic in the order of the versions. Shape and Balance
--                          are about heights, Sorted and Contents about the in-order list, Lookup
--                          about the choice, Memory about copies and release, Leaves about the
--                          height of new nodes. Reader has the loop of yaml_configuration.c that
--                          reads the queries of a metric into the tree (read_queries); Built and
--                          Reads are about it
--   ExtQueryAlts           src/libpgexporter/ext_query_alts.c: the same tree over extension versions, and
--                          in Reader the loop that reads an extension's metric
--   Version                src/libpgexporter/extension.c: parse_version, compare_versions,
--                          version_text; Newer says which version is the newer; Enabled has
--                          extension_in_list and extension_is_enabled
--   Utf8                   src/libpgexporter/utf8.c, against the encoding of RFC 3629 (Encoding)
--   Config                 src/libpgexporter/configuration.c: as_int, as_long, as_bytes and
--                          as_milliseconds (Config), the words (Words), the event backend
--                          (Backends) and the lines with a key and a value (Lines)
--   Cache                  src/libpgexporter/cache.c: Cache is struct prometheus_cache
--   Deque                  src/libpgexporter/deque.c: the nodes between the sentinels as a list;
--                          Sort has the merge sort
--   Json                   src/libpgexporter/json.c: Json is struct json with the values in it, Parse
--                          has parse_string and fill_value; Print is the compact format of value.c,
--                          deque.c and art.c, Escapes the escaping of utils.c; Values, Steps, Plain,
--                          Runs, RoundTrip and Whole read a printed text back; Shrink, Enough and
--                          Rounds are about the number of rounds. An item is the list of its
--                          keys and values in the byte order of the keys, in which art_iterate
--                          visits its radix tree
--   Wire                   src/libpgexporter/utils.c: the integers in network order
--   Art                    src/libpgexporter/art.c: ArtNode is a struct art_node with its leaf or NULL;
--                          search and the arrays (Art), insertion (Art/Insert). AddChild says what
--                          node_add_child does, by Index, Slots, Children, Sorted, Indexed and Grow;
--                          Paths has the invariant, Lowest the least key; Search, Least,
--                          Prefixes, Replace, Split, SplitNode
--                          and Down the cases, Refines their sum, and Map the specification
--   Tests                  runs of the definitions, and the theorems at concrete inputs
--
-- Integers of the C code: int and long are ℤ cut to 32 and 64 bits where the code cuts or
-- multiplies them, the size of a deque is taken modulo 2 ^ 32, and
-- the count of removed nodes is an int. Bytes are numbers, and strings are
-- lists of them without the final NUL, but for the payload of the cache, which is the whole block,
-- and the keys of radix trees, which end with it.
--
-- Recursion on fuel: a UTF-8 loop has as many rounds as bytes, each of which takes a byte at
-- least; printing a number has as many rounds as its value; the merge has as many as both lists,
-- the sort as many levels as nodes, and the removal as many rounds as nodes; the binary search of
-- the radix tree has as many rounds as keys, and a search for a place as many as the array has; a
-- JSON text has two rounds for each of its bytes and one more (Json/Rounds shows that they never run
-- out). The theorems are stated of the functions with
-- this fuel, so it is enough where they say what the result is.
--
-- What is not modelled: sockets, files, processes, shared memory and locks (a call that may fail
-- is an argument that tells whether it does), the libraries for cryptography, compression, YAML
-- and SQLite with the code that calls them, and so far deletion from the radix tree and its
-- iterator, the indented formats of JSON, the messages of PostgreSQL, HTTP, the alerts, and the
-- check and reload of the whole configuration.
pub mod Prelude
pub mod Order
pub mod Text
pub mod Art
pub mod Cache
pub mod Json
pub mod Config
pub mod Deque
pub mod QueryAlts
pub mod Version
pub mod ExtQueryAlts
pub mod Utf8
pub mod Wire
pub mod Tests
