-- ===== src/Lib.antt =====
-- Kernway: models of the framework's components and the theorems that make them correct.
--
-- A request enters through crates/kernway-http, is matched by the router of crates/kernway-server,
-- and meets on its way the guards of crates/kernway-security: bans, sessions and the login guard. The
-- session store may stand behind a Redis client, and a shard of crates/rt-core waits on its timers. Each
-- file opens with the source that it is about. Text is a list of bytes (Prelude/Text.antt), a hash
-- map an association list with distinct keys (Prelude/Maps.antt); where the order of a map could
-- be seen, the theorems do not depend on it. Numbers are natural numbers; where the source adds
-- in a machine word, the model writes the wrap-around of a release build.
--
-- Security/Lockout.antt: crates/kernway-security/src/lockout.rs. Its lemmas on single calls are in
-- Effects, the run of failures that reaches the limit in Burst.
-- Security/Session.antt: crates/kernway-security/src/session.rs, over the trait `SessionStore` as an
-- interface; Memory is the store that fills it, Admission says whom `authenticate_at` admits,
-- Lifecycle and Login follow sessions through logins, logouts and interleaved store calls; `login_interrupted` is
-- `login_at` with calls of others between its two calls of the store. Cookie is the cookie of
-- a session. The token functions are parameters there; Security/Token.antt, crates/kernway-security/src/token.rs, is the
-- codec that fills them, over a MAC that is a parameter. Base64 is about its letters, RoundTrip about its claims, Login
-- about sessions with its tokens.
-- Security/Bans.antt: crates/kernway-security/src/tracking.rs. Rules says whom the list blocks after a
-- change, Subnets which addresses a subnet holds, Forwarded which address a request has behind proxies.
-- Server/Router.antt: crates/kernway-server/src/router.rs. The walk takes its fuel from the length of
-- the path, which has at most that many segments; Peeling proves that this is enough. `to_uppercase`, by which a
-- route's method is stored, is a parameter, and the theorems on the table of routes ask for methods that
-- are ASCII text.
-- Server/Cors.antt: crates/kernway-server/src/cors.rs; Decision says which origin a response allows.
-- Core/Fields.antt: crates/kernway-core/src/fields.rs. View reads `Fields` as a list of pairs, Get says
-- what a lookup finds in it.
-- Http/Parser.antt: crates/kernway-http/src/parser.rs, from a buffer to a request. Its loops run over the
-- bytes or the lines and need no fuel. HeadEnd and Incremental are about buffers that grow, Framing about
-- the lengths of head and body, Sizes about the offsets of the fields that a head fills and
-- the slices of the buffer.
-- Http/Writer.antt: crates/kernway-http/src/writer.rs, with the body of crates/kernway-core/src/response.rs. Digits is
-- about its numbers and texts, Lines about the end of a head that the parser finds again, Framing about what a
-- head says.
-- Cache/Memory.antt: crates/kernway-cache-memory over crates/kernway-cache-core. View says what a caller sees,
-- Capacity what a limit does. The loop that evicts has the number of entries as fuel. The key that the map
-- gives first is a parameter.
-- Dns/Cache.antt: crates/kernway-dns/src/cache.rs, with times in nanoseconds.
-- Dns/Message.antt: crates/kernway-dns/src/message.rs. Labels says what a query holds of a name, RoundTrip that it
-- is read back, Total that reading ends, Bounds where it leads. A turn of the loop over a name adds to the name
-- or to the jumps, so that the sum of their limits is fuel enough.
-- Dns/Resolver.antt: crates/kernway-dns/src/resolver.rs, which brings the two together. Query says whose replies are
-- accepted, Sound where addresses come from.
-- Redis/Resp.antt: crates/kernway-redis/src/resp.rs. Lines is about the first line of a reply, Fuel about what
-- is consumed, Incremental about replies that arrive in pieces, Commands and RoundTrip about commands. The fuel is one more
-- than the bytes of the buffer.
-- Runtime/Timers.antt: crates/rt-core/src/time.rs, the heap of deadlines of one shard. Firing is about
-- the timers that are due, Waiting about the next deadline and the changes of single timers.
-- Di/Beans.antt, Di/Refresh.antt, Di/Scope.antt: crates/di-core, bean.rs, context.rs and scope.rs. Lookup says what
-- registration keeps and what a lookup finds. In Refresh, Order is about the order in which components are
-- built, Ready about dependencies that are met, Progress about the passes, which need at most one
-- more than there are components, and Complete about what is built. The code that the derive macro writes
-- for a component is a parameter. The fuel of `refresh` counts the turns of its outer loop.
-- Orm/Repository.antt, Orm/Entity.antt, Orm/Spec.antt, Orm/Page.antt: crates/kernway-orm-core. Orm/Query.antt,
-- Orm/Memory.antt, Orm/Json.antt: crates/kernway-orm-memory, with what the language sorts and compares in Orm/Ordered.antt.
-- Answers says what a query gives, Paging what its pages give together, Agreement what filters and
-- predicate trees have in common, Defaults that the driver does what the trait says, Saves and Ids what a save
-- changes. Floats, serde_json and the rows' own conversions are parameters.
-- Leaf/Lexer.antt, Leaf/Parser.antt: the tokens and the recursive descent of crates/kernleaf/src/expr.rs, on the syntax
-- of Leaf/Expr.antt. The type of the numbers and the parser of one are parameters. The six functions from
-- `or` to `multiplicative` are one function of the level. The parser's fuel goes down at each call; Load, Steps and
-- Total are about the fuel that a text needs, 20 for each byte and 18 more, and Pieces about the texts
-- that are parsed within a text. Leaf/Printer.antt is the inverse, a printer to tokens, whose children say
-- what each level reads.
-- Leaf/Value.antt: the model of crates/kernway-core/src/template.rs. Leaf/Computed.antt, Leaf/Utilities.antt and
-- Leaf/Eval.antt evaluate expressions over it, which needs no fuel. Escapes is about the bytes of a URL, Queries about
-- its query, which the decoder of forms reads. The floats and the change of case are parameters.
-- Core/Url.antt: crates/kernway-core/src/url.rs, with RoundTrip on the codec and Forms on a form's fields.
-- Static.antt: the paths of crates/kernway-static/src/lib.rs, with Safety on what is served. A path is the
-- list of the segments below the root, so that what a platform takes for an absolute segment is left out.
-- Static/Negotiation.antt: its choice of an encoding, with the weights' floats as a parameter, and LastWord on
-- the part of a header that counts.
--
-- Not modelled: sockets, the executor, SHA-256, procedural macros, the documents of templates, MIME
-- types and ETags of files, and the database drivers; the rate limiter counts in floating point.
pub mod Prelude
pub mod Core
pub mod Cache
pub mod Di
pub mod Dns
pub mod Http
pub mod Leaf
pub mod Orm
pub mod Redis
pub mod Runtime
pub mod Security
pub mod Server
pub mod Static
