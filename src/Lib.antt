-- ===== src/Lib.antt =====
-- Verification of baaah, a framework for Kubernetes controllers: handlers are routed the changes of
-- objects, and what they ask for is applied.
--
-- How the parts interact. An informer's event becomes a key on the work queue of a controller
-- (pkg/runtime/controller.go). The shared handler of a kind (pkg/runtime/sharedhandler.go) hands it
-- to the HandlerSet of the router (pkg/router/handler.go), which decodes the key, holds it back if it
-- comes too often, looks the object up and runs the handlers of the kind, each wrapped in the filters
-- of its route (pkg/router/router.go, pkg/router/finalizer.go). What a handler reads or writes through
-- its client (pkg/router/client.go) is registered as a trigger (pkg/router/trigger.go,
-- pkg/router/matcher.go) and watched. Then the triggers of the object are fired, which enqueues other
-- keys through the backend (pkg/runtime/backend.go), and the objects that were asked for are applied
-- (pkg/router/save.go, pkg/apply).
--
-- The files.
--   Prelude       Boolean tests, equality, lists, association lists, texts, signed numbers
--   Objects       client.Object and the values about it, as records of what their methods return
--   Errors, Merr  Go's errors, and pkg/merr/error.go
--   Router        pkg/router: Matcher is matcher.go; Triggers is trigger.go; Watching is WatchGVK,
--                 triggerRegistry.Watch and triggers.Register; Response is the two responses;
--                 Handlers is handlers.go; Client is client.go; Finalizer is finalizer.go; Route is
--                 RouteBuilder.Handler of router.go; Save is save.go; Backoff is checkDelay; Keys and
--                 HandlerSet are onChange and handle of handler.go; State is what they share
--   Runtime       pkg/runtime: Keys and Controller are controller.go and Trigger of backend.go;
--                 ResourceVersion and Cached are cached.go, with copy.go; SharedHandler is sharedhandler.go;
--                 Transaction is transaction.go; SharedController is sharedcontroller.go,
--                 errorcontroller.go and sharedcontrollerfactory.go
--   Apply         pkg/apply: ObjectSet is objectset/objectset.go; Labels is of desiredset_apply.go;
--                 Compare and Sort are compareSets of desiredset_process.go; Owner is
--                 desiredset_owner.go and the two tests on a change of owner of desiredset_process.go;
--                 Client is what is called of the client; Namespaces and Process are the rest of
--                 desiredset_process.go; Desired is apply.go, desiredset.go and the rest of
--                 desiredset_apply.go; Patch is what desiredset_compare.go does with documents, and
--                 Diff the rest of it with patch_style.go
--   Json          documents, as encoding/json reads them
--   Mapper        pkg/mapper/mapper.go
--   Watcher       pkg/watcher/watcher.go
--   Yaml          pkg/yaml/yaml.go, less its reader
--   Conditions    pkg/conditions/setter.go
--   Name          pkg/name/name.go
--   Webhook       pkg/webhook: match.go, and admit of router.go
-- A definition has the name of its function in this spelling: UnregisterAndTrigger is
-- unregister_and_trigger, checkDelay is check_delay.
--
-- How the code is modelled. A text is the list of its bytes. A map is an association list; Go
-- iterates a map in any order, and the theorems on such loops count results or look them up, so they
-- hold in whatever order the list has. An operation on shared state takes the state and returns it;
-- one that holds a lock from beginning to end is one step. Pointers to objects that handlers may
-- change are numbers into a heap of the router's state, so that the object of a request, the copy that
-- a finalizer makes and the objects of a response may be one object or several. The cluster is a
-- state of any type behind a record of the methods that are called, and the rate limiter, the scheme
-- and the hash are parameters. A duration is a signed number. All loops are over lists and are
-- structural, but for the two endless ones of doWatch and retryWatch, which run on fuel: one more than
-- the number of times that their selects may choose another case than the end of the context is
-- enough. Go chooses at random among the cases that are ready, so that such a bound is assumed.
--
-- What is not modelled: informers, work queues and clients of client-go and controller-runtime beyond
-- the calls that are made of them, the client that chooses among several by the API group, leader
-- election, logging, HTTP, the reading of YAML, and the reconcilers of single kinds.
pub mod Prelude
pub mod Objects
pub mod Errors
pub mod Json
pub mod Merr
pub mod Router
pub mod Runtime
pub mod Apply
pub mod Name
pub mod Webhook
pub mod Mapper
pub mod Watcher
pub mod Yaml
pub mod Conditions
