-- ===== src/Lib.antt =====
-- Varnish modules: cookies, secondary keys, throttling, saint mode, variables, headers, request
-- bodies, soft purges and client sockets.
--
-- The repository is a collection of modules (vmods) that VCL programs of the cache varnishd
-- call. Each module is one C file of src/ with its own state; they share no state and do not
-- call each other. What they share is varnishd (workspaces, object cores, the log, the task and
-- VCL private pointers) and src/vtree.h.
--
-- Parts and files (C file: what it keeps; the modules here):
--   src/vmod_cookie.c: the list of cookies of one request, behind its PRIV_TASK pointer. Cookie
--     has the state (`Task`: the workspace, the log, the list) and every function, under its
--     name less the prefix vmod_ (vmod_set is `set`). Cookie.Jar is about the list, Operations
--     about set, get and delete, Parse and RoundTrip about the text, Grammar has the text of a
--     header as a grammar and Reading what parse makes of it, Names is about the list of
--     names that filter and filter_except read, Filter about what they take out, History about
--     sequences of calls.
--   src/vmod_xkey.c: two trees, from a digest to the objects under it and from an object to its
--     keys, with pools of free structures. Xkey.Index has the trees and xkey_insert,
--     xkey_remove and xkey_cleanup, Xkey.Tokens xkey_tok and the loop around it, Xkey.Events
--     the callback xkey_cb and vmod_event, Xkey.Purge purge, vmod_purge and vmod_softpurge.
--     Xkey.Refines says what the trees stand for: a list of associations between digests and
--     objects, oldest first, with a sound count in each pool. Remove, Headers, Purged, Cleanup
--     and History hold the proofs about xkey_remove, the headers of an object, the purges, the
--     end of the module, and any order of events. Threads has the steps that the threads of
--     varnishd take one by one (a word, a removal, a purge) as a step relation, Apart is about
--     one insertion between the steps of others, Simulates has the same actions on a plain list
--     of pairs of a digest and an object, and Bisimilar the proofs that relate the two. Promise
--     joins the callbacks and a purge.
--   src/vmod_vsthrottle.c: 16 partitions of token buckets. Vsthrottle.Bucket is one bucket
--     (tb_alloc, calc_tokens, and the part of vmod_is_denied that spends a token),
--     Vsthrottle.Table the partitions, the three functions, run_gc, fini and event_function,
--     Vsthrottle.Digest do_digest. Spec has what the module promises, with one function from
--     digests to buckets in place of the partitions and their trees, and Refines the proofs
--     that relate the two. Pending is about one bucket with a block, Held and Blocked about it
--     among the requests of all keys; Paid is about how a bucket pays for a request, and Rate
--     about the requests of one key over time. Burst, Collect, Unseen, Limit and Refill hold the
--     other proofs.
--   src/vmod_saintmode.c: per backend a list of troubles (a digest and the end of its
--     blacklisting). Saintmode.Trouble has the list and is_digest_healthy, Saintmode.Director
--     the functions that VCL and varnishd call. Check, Blacklist and Recovery hold proofs, Race
--     has healthy with other threads between its two steps. Record has a record of all
--     blacklistings in place of the list, and Recorded the proofs that relate the two.
--   src/vmod_var.c: the typed variables of one task, behind its PRIV_TASK pointer, and the
--     global variables. Var has the first, with VMOD_SET_X and VMOD_GET_X as set_x and one
--     function for each type, Var.Global the second. Var.Stored holds the proofs about set and
--     get, and Var.Store has a function from names to values in place of the list, with the
--     proofs that relate the two.
--   src/vmod_header.c: no state of its own but the expression of each call site; it works on
--     the array of headers of a message. Header has header_http_match, header_http_findhdr,
--     header_http_Unset and vmod_get and vmod_remove (as header_get and header_remove),
--     Header.Append vmod_append and vmod_copy (header_append, header_copy) over the messages of
--     a task. Header.Compact holds the proofs about removal and lookup; Loop, Copied and Itself
--     those about copies.
--   src/vmod_bodyaccess.c: no state but the expression of each call site; it reads the cached
--     body of a request, which arrives in pieces. Bodyaccess has hash_req_body, len_req_body,
--     rematch_req_body and log_req_body, Bodyaccess.Log the callback bodyaccess_log. Lines and
--     Body hold the proofs.
--   src/vmod_softpurge.c: one function over the objects of an object head, in two loops, the
--     first under the lock of the head (collect, rearm_all). Softpurge.References holds the
--     proofs.
--   src/vmod_tcp.c: options of the socket of the client. Tcp has its four functions, Tcp.Socket
--     the proofs.
-- Base, Base.Tests, Base.Lists, Base.Strings and Base.Int are shared: tests on numbers, lists,
-- C strings as lists of bytes, and integers. Tests has the theorems at concrete inputs.
--
-- How the code is represented. A pointer that may be null is an Option. A C string is the list
-- of its bytes in front of the NUL. A function that changes state takes the state and returns
-- it. Where the code asserts, or follows a null pointer, the result is `none`. The functions of
-- xkey, vsthrottle and saintmode, and those on global variables, do their work under a mutex,
-- so each is one step, with three exceptions. xkey_cb_insert takes the mutex once for each
-- word: Xkey.Events has it with no other call between two words, Xkey.Threads with any. healthy
-- of saintmode reads n_trouble before it takes the mutex: Saintmode.Director has it with no
-- call between, Saintmode.Race with any. And in softpurge a function stands for what other
-- threads do to the objects between the two loops.
--
-- An unsigned int is a natural number with % 2 ^ 32 where the code counts up or down without a
-- bound (n_trouble) or converts (to_unsigned, as_unsigned, to_size for a size_t of 64 bits, and
-- to_int for
-- an int); the counters of the pools stay below six. Tokens, capacities and the loop counters
-- of type int are unbounded integers.
--
-- Parameters, with their laws where a theorem uses them:
--   Workspace (WS_Alloc, WS_Printf, WS_Copy): any call may fail. `IsRoomy` says that none does.
--   Tree (src/vtree.h, a copy of the BSD red-black tree): `IsMap` says that it is a finite map.
--   Tree.Assoc has an association list for which this is proved, and Tree.Compare the functions
--   with which the code compares keys, which are orders. `same` stands for their result 0.
--   Objects (object cores and EXP_Rearm), the digests of xkey (SHA256), Sha256 of
--   Vsthrottle.Digest (`IsStreaming` says that a text may be hashed in pieces, `IsEncoding` that
--   a limit or a time is eight bytes in memory, which differ for different values; the other
--   files on the throttle take do_digest as a function), Double (double and its
--   conversion to long, which may be undefined, as the result then is `none`; `IsDouble`,
--   `IsEarning` and `IsRefilling` are facts about finite values), Clock (times
--   of saint mode, `IsClock`), and the regular expressions of Header and Bodyaccess.
--   Varnishd (VRT_String, http_SetHeader): `IsAppending` says that a header is added behind the
--   others while the array has room, and `IsRoomy` of Header.Loop that a text fits in the
--   workspace.
--   Objcores (object cores of softpurge, HSH_DerefObjCore, EXP_Rearm): `IsObjcores` says that a
--   call changes what it is meant to change.
--   Kernel (getsockopt, setsockopt), malloc as the sizes that it gives, and VRB_Iterate as the
--   pieces that it hands out with the number that it returns.
--
-- Fuel. The loop of vmod_parse, the one of filter_cookies that reads the list, and the one
-- around xkey_tok take one more than the length of the text as fuel, and the loop of
-- bodyaccess_log the length of the piece: each round consumes at least a byte. The loop of
-- header_http_cphdr takes one more than the slots of the array, which nhd cannot pass. The
-- theorems on them show that a result is always produced. All other loops follow a list, or
-- count up to nhd.
--
-- Not modelled: src/vtree.h and src/foreign/hash/hash_slinger.h, copies of library code; of the
-- modelled files, cookie's format_rfc1123 (one call of varnishd), saintmode's backend (a
-- getter), the event functions that only make a mutex, the builds without HAVE_TCP_INFO, the
-- texts of most log lines, the magic numbers and the freeing of memory. The assertions on magic
-- numbers are taken to hold.
pub mod Base
pub mod Workspace
pub mod Cookie
pub mod Tree
pub mod Xkey
pub mod Vsthrottle
pub mod Saintmode
pub mod Var
pub mod Bodyaccess
pub mod Softpurge
pub mod Tcp
pub mod Header
pub mod Tests
