-- ===== src/Lib.antt =====
-- aurweb, the Arch User Repository: who maintains a package base, who may change it, what the website
-- and the SSH interface do to the rows about it, which pushes the Git hook takes and what it stores,
-- the proposals of the maintainers, and the scripts that run at intervals.
--
-- Parts, and the files that model them (paths from the repository's root):
--   Models          aurweb/schema.py: the rows, and the database as a record of tables
--   Creds           aurweb/auth/creds.py, aurweb/models/user.py: credentials by account type
--   Comaintainers   aurweb/pkgbase/util.py: the line of co-maintainers and its priorities
--   Requests        aurweb/packages/requests.py: what an action does to pending requests
--   Votes           aurweb/scripts/popupdate.py: votes and the counter NumVotes
--   Actions         aurweb/pkgbase/actions.py: notify, unflag, disown, adopt, delete, merge
--   Routes          aurweb/routers/pkgbase.py, aurweb/pkgbase/validate.py: the forms; Closing:
--                   the form of aurweb/routers/requests.py that closes a request
--   Serve           aurweb/git/serve.py: the commands over SSH
--   Hook            aurweb/git/update.py, update_common.py: a push, its checks and what it stores
--                   (Trees: the commits; Metadata: the .SRCINFO file; Tables, Inserting, Saving: the rows;
--                   Push: main), and parse_dep of update_legacy.py (Legacy)
--   Proposals       aurweb/routers/package_maintainer.py, aurweb/models/voteinfo.py: votes
--   Accounts        aurweb/routers/accounts.py, auth.py, aurweb/users, aurweb/models/user.py,
--                   aurweb/auth/__init__.py, aurweb/git/auth.py, and from aurweb/asgi.py the check for
--                   the terms of service: accounts, sessions, passwords and keys
--                   (Texts, Checks, Updates, Login, Forms, Terms; the proofs are the other files)
--   Maintenance     aurweb/scripts/accountmaint.py, requestmaint.py, usermaint.py, votereminder.py
--   RateLimit       aurweb/ratelimit.py: the requests of a host in a window of time
--   Retry           aurweb/db.py: a function that is run again after a deadlock
-- Prelude holds what they share: tests on numbers, lists, tables and sorting. Samples is a small
-- database, and the modules Tests apply the theorems to it.
--
-- How the parts interact: a form (Routes) looks the package base up, checks the credential (Creds)
-- and the comment, and calls an action (Actions). An action that needs a request calls
-- `handle_request` (Requests), changes the rows, with `remove_comaintainer` (Comaintainers) or
-- `run_single` (Votes) where the code does, and sends the notifications. The SSH interface (Serve)
-- changes the same tables by SQL of its own.
--
-- State is a value of `Db`, in Accounts of `Store`, passed from step to step; `sent` lists the
-- notifications. A function has
-- the name of the source's, without a leading underscore; a handler returns its response beside the
-- database. An exception is a value: `Result` in Requests, `Outcome` in Serve, `Check` in Hook,
-- `Response` in Routes, Proposals and Accounts, where `Outcome` is an update that may raise.
-- What the forms of accounts read beside the tables is an `Env`: the time, random texts, and the code
-- outside the repository (bcrypt, email_validator, ssh-keygen, the list of disposable domains).
-- The row of a package base that a handler holds is the one that it loaded at its start.
-- A loop of the source is a recursion on the list that it runs over, with no fuel, but for two: the
-- batches of Maintenance, where the length of the list is enough, and the retries, where eleven calls
-- are. What the hook reads through pygit2 and alpm is data: trees, the walk from one commit to another,
-- parsed files. Numbers are unbounded. Subtraction stops at 0: of times, where the
-- source compares the difference with an age that is not negative, and of NumVotes, which is unsigned.
-- The order of a Python set and the match with the option `repo-regex` are parameters.
--
-- Not modelled: the templates and the pages that only read; the values of Popularity, a decimal, of
-- which `refreshed` in `Db` tells only that a vote counts it anew; the form for keywords;
-- the retries inside each handler; the counters in Redis; the command line and the printed texts of
-- the SSH interface; the collation of the database, names being compared as whole texts; and the other
-- parts of aurweb, among them the legacy update hook, the RPC, search, single sign-on, and the texts and
-- recipients of the notifications.
pub mod Prelude
pub mod Models
pub mod Samples
pub mod Creds
pub mod Accounts
pub mod Comaintainers
pub mod Hook
pub mod Proposals
pub mod Maintenance
pub mod RateLimit
pub mod Requests
pub mod Votes
pub mod Actions
pub mod Serve
pub mod Retry
pub mod Routes
