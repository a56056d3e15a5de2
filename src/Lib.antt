-- ===== src/Lib.antt =====
-- A model of the core of subnext, a runtime that keeps an unbounded external state for a language
-- model and shows it a bounded active context.
--
-- The program's parts that are modelled here, and the files:
--   Prelude, Prelude/*   shared names, Boolean tests, lists by native numbers, byte strings, maps
--   Ids                  src/ids.rs: content ids and the logical clock that stamps the nodes
--   Hash, Hash/*         src/hash.rs: the streaming SHA-256 with its block buffer (Stream), the
--                        compression function (Words), tagged digests (Tagged), hex text (Hex)
--   Merkle, Merkle/*     src/merkle.rs: the tree over the objects of a container, and proofs
--   Nodes, Nodes/*       src/nodes.rs: kinds, origins, statuses, edges, nodes, fingerprints
--   Graph, Graph/*       src/graph.rs: the memory graph (State), the invalidation cascade (Cascade),
--                        supersession and contradiction (Resolve), insertion behind the grounding
--                        rule (Upsert), the reads (Queries), the audit walk (Audit)
--   Ladder               src/ladder.rs: the levels at which a node can be shown
--   Budget, Budget/*     src/budget.rs: the choice of levels within a budget (solve); its table (Table),
--                        what its rows cost (Rows), what the walk back spends (Spending), the bound
--                        (Within), the pinned candidates (Pinned)
--   Text, Text/*         src/text.rs: paragraphs and sentences (Ranges); Split says what it is to cut a
--                        text
--   Spans, Spans/*       src/spans.rs: the raw store; its chunks (Chunk), its stores (Stored), their index
--                        (Indexed) and the cuts it leads to (Binding), what an id is bound to (Bound)
--   Sessions, Sessions/* src/sessions.rs: the router that keeps a runtime for each conversation
--   Json, Json/*         src/json.rs: the values, the writer (Write), the canonical writer (Canonical),
--                        the parser (Read), its end (Ends, Total), the round trip (RoundTrip)
--   Policy, Policy/*     src/policy.rs: routing, escalation and the decision table over a node (Levels)
--   Trust, Trust/*       src/trust.rs: keys, labels, the gateway; what it admits (Admission)
--   Container,           src/context_store.rs: the data of the container; their JSON (Format, Front), the
--   Container/*          walk over the checkpoints (Chain), the files (Disk), the operations on objects
--                        (Store), commit (Commit), create, open and verify (Open), the objects' addresses
--                        under them (Intact), the states they lead to (History), what is admitted
--                        (Gate), reading back what was put in (ReadBack)
--   Scrub, Scrub/*       src/scrub.rs: the scrubber; what it leaves (Settles), what it does not touch
--                        (Healthy)
--   Fit, Fit/*           src/fit.rs: the gate that shows a whole store where it fits
--
-- How they interact: the Merkle tree calls `tagged` for every digest, and `tagged` feeds the
-- streaming hasher length by length; the graph keeps nodes, stamps them by the clock, and runs the
-- cascade from `upsert` and `supersede`; the raw store cuts a document by the ranges of Text and names
-- its spans by `make_id`. The container writes its records by the canonical JSON, names them by their
-- SHA-256, seals them under the Merkle root and a chain of tagged digests, and asks the gateway of Trust
-- before it hands an object out; the scrubber works on a container through its operations.
--
-- Correspondence. A method on `&mut self` is a function from the old state to the new one, with its
-- result; a function of the source has its name here, in one file per part. Strings and byte slices
-- are lists of bytes, and a byte is a natural number without a bound; in Json a string is the list of
-- its code points, and what Rust does with the text of floats is a parameter. `usize` and `u64` counters are natural numbers; where the source
-- wraps or the model must keep the width, `% 2 ^ w` is written out. An `f32` is its bit pattern. A
-- `HashMap` with string keys is an association list (Prelude/Dict), read by `get` and, in Sessions,
-- by length. A panic of an index is `none` in the Merkle proofs; in the graph and the raw store a
-- read out of range gives a blank value.
--
-- Loops run on fuel or on the list they walk. `update` is given the length of its input, of which
-- each round takes 64 bytes; `pad_zeros` is given 64, one block; `build_levels` and the binary
-- search are given the number of leaves, and each round halves it; the cascade is given the length
-- of its first queue and the number of edges, since a node is expanded once; the JSON parser is
-- given twice the length of its input, since a value is at least one character; the loops over a
-- text are given its length. The walks of the budget's table follow its lists. Theorems below or in
-- the files show that this is enough. `trim` is given the length of its text and `decimal` its
-- number, which get smaller in each round.
--
-- Collisions of the hash are not assumed away. Since bytes have no bound, and every hash of fixed length
-- has collisions, that some two messages collide would say nothing: a theorem about digests names, as
-- its other case, the two messages of its own arguments that differ and have one digest.
--
-- The files of a container are dictionaries from names to bytes, the store and its files are one
-- record, and an operation gives its result with the store and files that it leaves. A write succeeds.
-- The traits `Signer` and `Verifier` are records of their methods; the numbers of JSON and UTF-8 are a
-- parameter (Host).
--
-- Not modelled: failures of the file system, the network, floating-point scores (index, embed, planner
-- scores; the budget takes the operations of `f32` as a parameter), rendering of text, the benchmark,
-- the demo and the command line.
pub mod Prelude
pub mod Ids
pub mod Hash
pub mod Merkle
pub mod Nodes
pub mod Graph
pub mod Budget
pub mod Container
pub mod Fit
pub mod Json
pub mod Ladder
pub mod Policy
pub mod Scrub
pub mod Sessions
pub mod Spans
pub mod Text
pub mod Trust
