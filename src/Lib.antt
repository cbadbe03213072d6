-- ===== src/Lib.antt =====
-- Verification library for appoptics-apm-go, the Go tracing agent (v1/ao and below it).
--
-- The agent decides for each request of an instrumented program whether it is traced, carries the
-- decision in an X-Trace ID from service to service, and reports the events and the metrics of the
-- traced requests to a collector, which in turn sends the sampling settings.
--
--   Base                     lists and numbers, bits, text, Go's slices, floats
--   Bson                     v1/ao/internal/bson/bson.go: the encoder of events; Document: the format
--   Hdrhist/Zigzag           v1/ao/internal/hdrhist/zigzag.go: the variable-length code of counts
--   Hdrhist/Buckets          v1/ao/internal/hdrhist/hist.go: the layout of the counters
--   Hdrhist/Hist             the same file: set-up, recording and resizing; Values: what is read of
--                            a histogram; Merged: sums and differences
--   Hdrhist/Recorder         the same file: the recorder
--   Metrics/RateCounts       v1/ao/internal/metrics/metrics.go: the request counters
--   Metrics/TransMap         the same file: the transaction names of a report cycle
--   Reporter/Metadata        v1/ao/internal/reporter/context.go: oboeMetadata, its packed and
--                            string forms, its validation and its random IDs
--   Reporter/Sampling        v1/ao/internal/reporter/event.go and oboe.go
--     Flags                  settingFlag, tracingMode, settingType, flagStringToBin
--     TokenBucket            tokenBucket: reset, setRateCap, update, consume, count; Interleaved:
--                            a bucket under concurrent calls
--     Settings               oboeSettings: the merging of the collector's settings with the local
--                            configuration and the URL filters; Update: the settings map
--     Request                oboeSampleRequest; Steps: the sampler as a machine
--   Reporter/Url             v1/ao/internal/reporter/url.go: the URL filters and their cache
--   Reporter/BytesBucket     v1/ao/internal/reporter/bytesbucket.go: the buffer of encoded events
--   Reporter/TriggerTrace    v1/ao/internal/reporter/context.go: the X-Trace-Options header and its
--                            signature; Options: parseTriggerTraceFlag
--   Reporter/Context         the same file: contexts, their copies and what these share; Begun:
--                            NewContext
--   Reporter/Rpc             v1/ao/internal/reporter/reporter_grpc.go: InvokeRPC, its retries and
--                            redirections; methods.go: what it asks of its five kinds of method
--   Reporter/SqlSanitizer    v1/ao/internal/reporter/sql_sanitizer.go: the finite state machine
--                            that replaces the literals of a SQL text
--   Tracing                  v1/ao/layer.go and trace.go: spans and traces, over the interface of
--                            the reporter's contexts; Spans and Trace: their operations; Naming:
--                            transaction names; Step: the calls of a program, one after another
--
-- Modelling. A function that changes state takes the state and returns the new one, beside its
-- result; a Go pointer to one of the three global token buckets is a name of it (BucketRef), so
-- that all settings share the buckets as they do in the code. The machines (Reached) make
-- sequences of whole calls, one after another, which is how a program calls that is not concurrent;
-- only for a token bucket (TokenBucket/Interleaved) is a step what the code does at once: a body
-- under its lock, or one atomic change of the counters. Errors are values. Numbers are natural
-- numbers; an int64 or a uint64 is its residue, with the wrap-around of the operations
-- written out. The loops recurse on the text, the bytes or the list of reads that they consume, so
-- that no fuel is needed; encode_zig_zag recurses on its nine groups. The loop of
-- numBucketsToCoverVal has 64 rounds of fuel, one more than it takes where the first bucket fits
-- an int64 (it never ends where that bucket's end shifts out of the word). The fuel of
-- RecordCorrected and of InvokeRPC is an argument: v / interval + 1 rounds are enough for the one,
-- and 441, which is 21 runs of 21 rounds, for the other.
--
-- Parameters, for what the code takes from outside: the clock's readings and the random draws are
-- arguments; the random reader is the list of its reads; float64 is an interface (Base/Floats)
-- with the laws of IEEE 754 for values that are neither negative nor NaN, to which the settings
-- are restricted by parseFloat64, infinities included, as nothing but 1 is subtracted; the Unicode
-- tables that the SQL sanitizer asks are arguments; the tracing mode that the URL filters give is
-- an argument of the request. The cache of the URL filters (freecache) is an interface, whose one
-- law is that it returns only what was set, at any time; compiled regular expressions and the
-- keyed hash of a signature are arguments. A call through a nil pointer gives no result. The
-- channels of PourIn are the list of what they give. What the collector answers, and which dials
-- succeed, is an argument of InvokeRPC, round by round.
--
-- Not modelled: concurrent calls on the spans of one trace, the construction of events, the loops
-- of the gRPC reporter, its shutdown and its stubs, the UDP reporter, host detection, logging, the
-- files that histograms are encoded to, the wrappers of spans for HTTP and for clients, and nil
-- receivers.
pub mod Base
pub mod Bson
pub mod Hdrhist
pub mod Metrics
pub mod Reporter
pub mod Tracing
