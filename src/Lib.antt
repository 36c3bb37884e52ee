-- ===== src/Lib.antt =====
-- zk-ai is a gateway that spreads chat requests over providers, deployments (a model at a provider)
-- and API keys. This library models the part that decides: what an error means, which key is
-- used, how long a key or a deployment rests, and what is tried next.
--
-- The parts, the files that model them and the code:
--   Errors                      app/core/errors.py: the exceptions. A class is an `ErrorKind`.
--   Retry/Throttle              app/retry/classifier.py: the kinds of rate limits, with both
--                               regular expressions as a search over code points.
--   Retry/Info                  app/retry/classifier.py: `ErrorInfo` and `to_error`.
--   Retry/Classifier            app/retry/classifier.py: `ErrorClassifier`; theorems in
--                               Retry/Matrix and Retry/Actions.
--   Retry/Backoff, Retry/Policy app/retry/backoff.py and policy.py; theorems in Retry/Delays.
--   Credentials/Cooldown        app/credentials/cooldown.py; theorems in its children.
--   Credentials/Runtime         app/models/credential.py: the record of a key.
--   Credentials/Config          app/models/provider.py, app/models/credential.py and
--                               app/credentials/pool.py: the state with which a key is registered.
--   Credentials/Health          app/credentials/health.py: every change of a key. The tracker
--                               mutates the key, the model returns the new one with the
--                               transition; theorems in its children.
--   Credentials/Rotation        app/credentials/rotation.py: what the pool needs of a strategy,
--                               as a record with its laws, and the default strategy; the others in
--                               its children.
--   Credentials/Affinity        the `OrderedDict` from sessions to keys (pool.py) and to
--                               deployments (scheduler.py).
--   Credentials/Pool            app/credentials/pool.py: the state of the pool and the selection of
--                               keys; the reports and the parking of siblings in Pool/Reports,
--                               waiting times in Pool/Waits, and what a changed
--                               configuration drops in Pool/Reconcile; theorems in Selection, Parking,
--                               Pins and Waits/Exact.
--   Routing/Limits              app/routing/limits.py: quotas over sliding windows; theorems in
--                               its children, the specification by the history in Limits/History,
--                               the rules of the configuration in Limits/Rules.
--   Routing/Deployments         app/routing/scheduler.py: what is remembered of a deployment;
--                               theorems in its children.
--   Routing/Decide              app/routing/scheduler.py: the decision after a failed attempt, the
--                               time for the next one and the final error; theorems in its child.
--   Routing/Execute             app/routing/scheduler.py: one attempt of `execute`; the loops that
--                               `execute` and `stream` share in Execute/Loop, `stream` in
--                               Execute/Stream; theorems in Ends, Trail, Sound and Closed, the last
--                               against the specification in Stream/Told, with the rule for the
--                               loops in Execute/Kept.
--   Routing/Aliases             app/routing/aliases.py; theorems in Expansion and Problems.
--   Routing/Capability          app/routing/capability.py; theorems in Gates and Weights.
--   Routing/AgentAuto           app/routing/agent_auto.py.
--   Routing/Strategy            app/routing/strategy.py; theorems in Orders and Rotation.
--   Routing/Router              app/routing/router.py: from a name to a plan; theorems in Front,
--                               Plans and Rewrites.
--   Tests                       the theorems at concrete inputs.
--   Prelude                     names of the libraries, tests, lists, dictionaries, texts, rounding,
--                               sorting, bands of equal priority.
--
-- How the parts interact: the name of a request is rewritten by its shape (AgentAuto) and
-- expanded to models (Aliases), whose deployments are scored (Capability) and ordered (Strategy) to a
-- plan (Router). The scheduler works it off (Execute): it takes the keys of a deployment from
-- `candidates` (Pool), which asks Limits for room and Rotation for the order. An exception of an
-- attempt is classified (Retry/Classifier) and reported to the pool (Pool/Reports), which changes
-- the key (Health, with Cooldown for the duration) and parks its siblings; it is noted for the
-- deployment (Deployments), and decides what is tried next (Decide).
--
-- Conventions. Every method that holds a lock is one function on the state. The clock is an
-- argument. Times and durations are natural numbers of ticks of 0.1 ms, the precision to which
-- the code rounds delays; ratios such as the jitter are in thousandths. A random draw comes from a
-- generator, a function with the documented bounds of `random.uniform`. A `dict` is an association
-- list in insertion order, so the order of an `OrderedDict` is that of the list. Scores
-- and weights are in thousandths, totals in millionths; a share of a score is kept as its
-- numerator, since the divisor is the same for all candidates of a request.
--
-- Loops are structural, with three bounds. The expansion of aliases has the 9 levels of the code. The
-- loop over the attempts with a key has fuel, and `suc max_total_attempts` is enough, since every
-- attempt counts: Execute/Ends proves it. The draws of the weighted strategy have the size of their
-- bucket as fuel, and Prelude/Bands proves that none is left over.
--
-- Not modelled: the adapters, whose answers are arguments, their table in the router, the estimate
-- of the tokens of a request, the environment (what a reference to it resolves to is a parameter), the
-- registration of a whole provider, reading of configuration and HTTP dates, persistence, logging, and
-- what is not in the directories above. Of a stream, that the client closes it between two
-- chunks, and that a request is cancelled during a pause.
pub mod Prelude
pub mod Errors
pub mod Retry
pub mod Credentials
pub mod Routing
pub mod Tests
