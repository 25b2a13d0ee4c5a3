-- ===== src/Lib.antt =====
-- kratos-kit: the in-process parts of the toolkit that decide something themselves, modelled as
-- functions and step relations.
--
-- retry/retry.go is Retry.antt: Option and New, and the loop of Retrier.Do (do_retry, do_rounds,
--   iterate, operate, pause). The operation, the two contexts and the random source belong to the
--   caller: what they answer at each attempt is a Round, and a run is a function of a stream of
--   rounds. Retry/Backoff.antt is FixedBackoff, LinearBackoff, ExponentialBackoff and the jitters,
--   with the wrap-around of int64 in the linear delay. Retry/Loop, Retry/Rounds and Retry/Cancel
--   are about Do, Retry/Options about New.
-- cache/memory/memory.go is Cache/Memory.antt (the two maps, expiration, ttl, Connect and
--   DisConnect), Cache/Memory/Strings.antt (Get, GetDel, Set, Del, Expire, Exists, Incr),
--   Cache/Memory/Hashes.antt (the operations on hashes) and Cache/Memory/Listing.antt (List).
--   Every operation is one step under its mutex, and takes the readings of the clock that it makes
--   as arguments, in order. A map that DisConnect has set to nil is `none`.
--   Cache/Memory/Strings/Refinement.antt is a specification of the string keys which never drops
--   an entry, and takes the two errors of a key with no value for one reply (Strings/Expiry is
--   about these two); Cache/Memory/Strings/View.antt and Cache/Memory/Hashes/View.antt are what a client
--   sees of the maps.
-- cache/store/rate_limit.go is Cache/RateLimit.antt (requests and Validate), and
--   cache/memory/rate_limit.go is Cache/RateLimit/Apply.antt (applyRateLimit, its five algorithms,
--   and rateLimitStateTTL) and Cache/RateLimit/Take.antt (TakeRateLimits and TakeTokenBuckets, one
--   step under rateLimitMutex). Cache/RateLimit/History.antt runs the requests of one key one
--   after the other. cache/store/store.go gives the entries and errors of Cache/Store.antt.
-- locker/memory/memory.go is Locker.antt (the sections of Acquire and Release, cut at the mutex and
--   at the channel of a key lock) and Locker/Steps.antt (the interleavings of any number of
--   goroutines, over a heap of key locks).
-- transport/hptimer/high_precision_timer.go is Timer.antt (AddTask, UpsertTask, RemoveTask, Start,
--   Stop, the turns of run and handleRepeatTask, each section under `mu` one function), and
--   transport/hptimer/timer_task.go and timer_heap.go are Timer/Heap.antt: tasks, Less, and
--   container/heap as a record of operations with the laws that its documentation gives.
--   Timer/Make.antt is NewTimerTask with its options. Timer/Steps.antt runs the sections in any
--   order; Timer/Turns, Timer/Removal and Timer/Upsert are about the loop, RemoveTask with Stop,
--   and UpsertTask, between whose two sections other sections may come (Timer/Absent is about
--   sections that add no task of an ID). Swap, Push and Pop of timer_heap.go stand in Timer/Heap,
--   where container/heap over them is a record of its documented laws. Timer/Tests.antt
--   fills the record with a sorted list.
-- auth/data/user_token.go is Auth/Token.antt (keys, the index of sessions, getTokenSession,
--   getTokenSessions, saveTokenSession) and Auth/Token/Calls.antt (the calls that make, rotate,
--   check and remove tokens), over the operations of the in-process cache, the model of
--   Cache/Memory. A call is one step at one reading of the clock; `failed` drops what the code
--   returns beside an error, and `failed endless` stands for a call that does not return.
--   Auth/Token/Listing is about what getTokenSessions lists, Validity, Login, Rotation and
--   Revocation about the calls, Texts has a codec for the runs in Tests.
-- auth/data/user_token_payload.go, with the readers it uses of auth/authn/engine/claims.go, is
--   Auth/Payload.antt; Auth/Payload/RoundTrip and Auth/Payload/Scopes are about it.
-- auth/authn/engine/metadata.go is Auth/Metadata.antt, where the Authorization headers of gRPC
--   and Kratos are the fields of a record, and auth/authn/engine/hmac/hmac.go is Auth/Hmac.antt
--   (MemoryReplayStore, parseToken, sign, Authenticate, CreateIdentityWithContext) with
--   Auth/Hmac/Request.antt (canonicalRequest) and Auth/Hmac/Make.antt (NewAuthenticator).
--   Token.antt beside it is about the parts of a token, Nonces.antt and Replay.antt about a token
--   that is used twice, where a call reads the clock twice, for the skew and in Consume,
--   Identity.antt about a token that was created.
-- auth/authn/engine/session/session.go is Auth/Session.antt: MemoryStore and the authenticator.
-- queue/memory/memory.go is Queue/Memory.antt: one stream with its channel, the goroutines that
--   Append starts and those of consume, cut where they can be held up, in any order. Weight and
--   Balance beside it keep an account of the messages, Tries, Stuck and Ends draw the conclusions, and
--   Streams is the whole queue, a map of streams (Append, Register, Shutdown), where an Append that
--   finds no stream looks it up and stores it in two steps, since Appends share the mutex;
--   Streams/Reached and Streams/Bounds are about it.
-- redact/redactor.go is Redact/Text.antt (MaskWithMin, Email, Truncate, FixedLength, IP),
--   Redact/Context.antt, Redact/Policy.antt, Redact/Rules.antt and Rules/Make below it
--   (newRuleTransform, NewFieldPolicy), and Redact/Message.antt (ApplyWith and the walks over a
--   message); Mask and Cuts below Text, Usable below Rules, and Kinds, Typing, Zeros and Hiding
--   below Message, are about them. redact/storage.go is Redact/Storage.antt;
--   redact/storage_runtime.go is Table, Runtime, Runtime/Entities and Runtime/Responses below it,
--   and Seal, Restore, Results, Kept and Runtime/Written are about them.
-- Base.antt and the files below it hold what these share: Boolean tests, lists, int64 (`wrap`),
--   Go maps, instants.
--
-- Not implemented by the program, and so parameters: strconv.Atoi and Itoa, ParseInt and
-- FormatInt, the operations of float64 with math.Pow and time.Duration.Seconds, container/heap,
-- the parser of cron expressions, encoding/json on a token session and on the claim of project
-- scopes, the verb %d, and HMAC-SHA256, SHA-256 and the encodings of a request. An instant counts
-- nanoseconds since 1970, the clock is taken to read after 1970. Where the order of a Go map
-- matters, it is the order of the list that stands for it. In redact these are AES-GCM, HMAC,
-- base64 and SHA-256, the side table and the access to an entity's fields, JSON, net/url, net and
-- regexp in the rules, and the code that is generated for messages; a message of protobuf is a
-- tree, the floats in it are their bits.
--
-- No definition runs on fuel: the loop of Do is a recursion on the attempts that are left, the walk
-- over a message on its tree, every other loop on its list.
--
-- Not modelled: the lock of the random source in retry.go, WithRNG and RetryIf (calls of
-- libraries only); what a caller of HGetAll does to the map that it is handed; the cancellation
-- of a goroutine that waits in Acquire is a step, its cause is not; the observer and the
-- callbacks of the timer, and what run does between two turns (its waits on channels); in the
-- queue Run, Wait and the delayed messages of Schedule and Cancel; in the tokens two calls that
-- overlap, and the Redis cache; in HMAC other stores of nonces, and texts that are not UTF-8; in
-- redact SanitizeText, Condition, Bypass, the cache of compiled expressions and texts that are no
-- UTF-8; claims that hold float64 or json.Number. The components that are not here at all (the
-- Redis queue, brokers, registries, database, configuration, the other transports, code
-- generators) are not modelled.
pub mod Base
pub mod Retry
pub mod Cache
pub mod Locker
pub mod Timer
pub mod Auth
pub mod Queue
pub mod Redact
