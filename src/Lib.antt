-- ===== src/Lib.antt =====
-- ClueGetter, a milter that asks its modules about each mail of a Postfix server and answers with one
-- verdict. The files of the program are under src/cluegetter/.
--
-- Prelude: bytes as texts, the strings package of Go, tests, lists, a monad for code that may panic
--   (Go), and float64 (Prelude.Float) as a record of operations of which nothing is assumed.
-- Dict: a Go map as a list of pairs, with a law for each two of its operations.
-- Address: address/address.go. The public suffix list is a parameter.
-- Cache: core/messagePersist.go, the cache of saved messages. messageCache is MessageCache, its Set,
--   _del and prune are set, del and prune; the time is an argument.
-- Message: core/message.go. messageGetVerdict is Message.Verdict.message_get_verdict, which uses
--   Message.Groups (messageStartModuleGroups, messageWeighResults) and Message.Headers
--   (messageEnsureHasMessageId, substituteStringVars); messageGetMutableHeaders is in Message.Headers,
--   messageAcceptRecipient in Message.Recipients, messageStart and String in Message.Inserted.
-- Milter: core/milter.go and core/milterSession.go. A callback of libmilter is an Event; Events.run runs
--   it, in Lifecycle and Mail, with the deferred milterHandleError around it. Sessions are in an index
--   by their id. What GetPriv, SetPriv and GetSymVal answer stands in the argument Ctx. The whitelist of
--   milterSessionStart is in Milter.Whitelist, with net.ParseCIDR as a parameter.
-- Srs: srs/srs.go. getRewriteDomain is Srs.get_rewrite_domain, with the array behind the slice that its
--   loop changes; redis is the record Redis, whose law is named where it is used.
-- Greylisting: greylisting/greylisting.go. MessageCheck is Greylisting.message_check, over a redis that
--   is a record of operations with three laws.
-- Quotas: quotas/quotas.go. MessageCheck is Quotas.Verdict.message_check, quotasRedisPollQuotasBySelector
--   is Quotas.Polling.poll_by_selector, the callbacks of quotasRedisAddMsg are run by Verdict.add_all.
-- Daemon: core/daemon.go and core/redis.go. Ipc has the messages on the socket (DaemonIpcSend and
--   daemonIpcHandleConn), Rpc the channels (redisRpc), Targets for whom they are, Services the list of
--   running services, Lists the lists that are polled, Start what redis is started with.
-- Saved: messageSave and GetAsMessage of core/message.go, and Checked, the check with its save, with
--   the protocol buffer of a session and the cache behind it.
-- Spamassassin: spamassassin/spamassassin.go and report.go. Contacts: core/contacts.go. Dkim: dkim/dkim.go,
--   and Dkim.Keys for dkim/backend/file.
-- Bounces: bounceHandler/bounceHandler.go. Bayes: bayes/bayes.go, over Daemon.Rpc, Cache and Saved.
-- MailQueue: core/mailQueue.go, the arguments of postsuper, the batches of files, Envelopes (what postcat
--   prints), Store and Updates (the lists in redis and the search in them).
-- Index: elasticsearch/index.go, the sessions of the database in pages (indexSessionsFromDb is
--   Index.index_sessions) and Index.Hydration, what is read of their messages.
-- Search: elasticsearch/http.go and elasticsearch/repo.go, from the form of a search to its query.
-- Web: core/http.go, the instances that a request names, and the query of the page on abusers.
-- Registry: core/module.go. ModuleRegister is Registry.module_register, Module is get_module.
--
-- A goroutine per module sends its result to a channel: the model has the results as a list in the
-- order of their arrival, so a theorem about all lists is one about all interleavings. A program that
-- ends by log.Fatal gives none. A length of a text or a list is below 2 ^ 64 in a running program; the
-- sums of sizes in the cache wrap at 2 ^ 64 as in the source. The host name, the time and the lists of
-- the public suffixes are arguments. All recursion is on the structure of a list or on a number of
-- rounds that the source fixes before its loop, so no fuel is needed, but for two loops whose rounds are
-- bounded by a number: for the loop that empties a list of redis one more than the length of the list
-- is enough, for the pages of sessions two more than there are sessions.
-- What a component uses of redis is a record of operations; where a theorem depends on what they do, it
-- names the law. Goroutines that poll quotas are run one after the other. An int is an integer whose
-- conversion to uint64 is written out (Prelude.Int).
--
-- Message.Verdict.message_get_verdict stops at the call of messageSave; Saved.Checked.check_and_save is
-- messageGetVerdict with that call, and with the cache that it writes to. Its panic, for an error of
-- Marshal, can only be met where Marshal is taken as a parameter: the generated one returns no error.
--
-- Case-insensitive comparison (strings.EqualFold) folds ASCII letters only.
--
-- Not modelled: input and output, the generated protocol buffers and their encoding, clients of other
-- services (clamav, rspamd, the client of Elasticsearch), the script language, and the rendering of the
-- web pages. The start of the
-- process in core/daemon.go and the defaults in core/config.go are not modelled.

pub mod Prelude
pub mod Dict
pub mod Cache
pub mod Address
pub mod Message
pub mod Srs
pub mod Milter
pub mod Greylisting
pub mod Quotas
pub mod Daemon
pub mod Saved
pub mod Spamassassin
pub mod Contacts
pub mod Dkim
pub mod Bounces
pub mod Bayes
pub mod MailQueue
pub mod Index
pub mod Web
pub mod Search
pub mod Registry
