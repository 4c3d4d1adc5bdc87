-- ===== src/Lib.antt =====
-- Metac: meta controllers for Kubernetes, which turn the answers of hooks into changes of resources.
--
-- A controller watches parents, asks a hook which children it wants, and brings the cluster there.
-- What it observes and desires are unstructured objects: trees of maps, lists and scalars. The parts
-- that are modelled are those that decide:
--
-- * Value, with Value/Depth and Value/Format, is interface{} as JSON gives it. A map is an association
--   list (Prelude: Dict), a loop over a map runs over its entries, and a map that the source updates
--   in place is returned.
-- * Api has what the program calls of apimachinery, client-go, encoding/json and
--   third_party/kubernetes, as records of operations. What is assumed of them is in the records ApiLaws
--   and NestedLaws. Client/Finalizing has ServerLaws,
--   Manage/Reverting FieldLaws, Selector/Labels LabelsLaws, States/Updating OwnersLaws and
--   Generic/Watch/Updating SettersLaws; Composite/Labelled/Matching LibraryLaws, and
--   Composite/Parent/Reporting RetryLaws.
-- * Apply is dynamic/apply/apply.go. `merge` is the function of that name, `merge_map`,
--   `merge_array`, `merge_list_map` and `detect_list_map_key` are mergeMap, mergeArray, mergeListMap
--   and detectListMapKey, and `merge_objects` is Merge. The recursion is on fuel. Merge descends into
--   the desired value, so that its depth and one is enough. Apply/LastApplied is the annotation with
--   the last applied state.
-- * Object is dynamic/object: Object/Metadata is metadata.go and Object/Status status.go.
-- * Client is dynamic/clientset/clientset.go: AtomicUpdate, AtomicStatusUpdate, AddFinalizer and
--   RemoveFinalizer, on a server whose state each call passes on. A retried call is a parameter.
-- * Finalizer is controller/common/finalizer/finalizer.go, and uses Client and Object.
-- * Selector is controller/common/selector: Slice is slice.go and util.go, Field is field.go, Reference
--   is reference.go, and Evaluator, which runs all of them, is evaluator.go. Labels has the label
--   selectors of apimachinery as a parameter. `run_match` is RunMatch, with its counter.
-- * Registry is controller/common/common.go: AnyUnstructRegistry, its keys, and the registrars.
-- * Revision is controller/composite/controller_revision.go: the children that a revision claims,
--   pruning, patches, and the claims. Revision/Naming has the names of revisions.
-- * Rolling is controller/composite/rolling_update.go: the update strategies, the checks of a child's
--   status, and syncRevisionClaims, which gives each child to the first revision that lists it.
--   Rolling/Update is syncRollingUpdate and shouldContinueRolling on top of it: `settle_groups` is its
--   first loop, `roll_next` its second. A revision other than the latest is its position.
-- * Manage is controller/common/manage_children.go: `apply_merge` is Apply.Merge, and `manage_children`
--   ManageChildren. It uses Apply, and the deletions and writes are calls of a server.
-- * States is controller/common/controller.go: ResourceStatesController, which writes the attachments of
--   one kind, and in States/Cluster ClusterStatesController, which runs it for all kinds. A write is a
--   call of the server StatesServer. It uses Apply, Manage and Registry.
-- * Generic is controller/generic: Generic/Selection is selector.go, Generic/Queue the keys of the queue
--   and updateStringMap, Generic/Calls getObservedAttachments and callSyncHook, and Generic/Watch
--   syncWatchObj, which calls them. What it calls outside, informers, discovery, the queue and hooks, is in WatchWorld and WatchController; `Sync` is a
--   step that may fail, on the state of all of it. It uses Finalizer, Client, Selector, UpdateStrategy
--   and States.
-- * Informer is dynamic/informer/factory.go: informers with reference counts. Informer/Tracking has the
--   abstract view, the list of open subscriptions, and the steps of the factory's users.
-- * Discovery is dynamic/discovery/discovery.go: what refresh builds of the lists of the API server. The
--   resources that several maps share are positions in a list.
-- * Claiming is dynamic/controllerref: owner references, adopt, release, and the claims of a list.
--   ClaimManager.Claim, in third_party, is a parameter.
-- * Composite is controller/composite: Composite itself has hooks.go and the selectors of a parent,
--   Composite/Children claimChildren, Composite/Revisions and Composite/Rollouts manageRevisions and
--   syncRevisions of controller_revision.go, Composite/Labelled the labels of the desired children,
--   Composite/Parent syncParentObject, and Composite/Events the handlers of child events. It uses Rolling,
--   Manage, Claiming and Finalizer. Hooks that run at the same time run one after the other here.
-- * UpdateStrategy is controller/generic/updatestrategy.go; discovery is a parameter there.
-- * Examples has concrete operations that satisfy the assumed laws, and runs.
--
-- Left out are the paths and texts of log lines and errors (an error is its kind), deep copies (values
-- are not shared here), the nil observed map given to Merge, and the scope of a client by namespace.
-- The order of a Go map is the order of the list. A merge that takes the observed object for what was
-- last applied changes the observed object in place; no object is both desired and explicitly updated
-- here, so that it is not read again. The float64 of seconds after which a hook wants to be called again is
-- counted in 2 ^ -1074, of which each positive float64 is a whole number; one that is not positive is 0, and
-- the rounding to a duration is in the parameter that takes the number. Nil and empty lists are told apart
-- where the source does, in the comparison of revisions. Not modelled are the
-- work queues, the watches and caches of informers, the HTTP of hooks, generated clients, the start of
-- the process, and, so far, the decorator controller and the metacontrollers that start the others.
pub mod Prelude
pub mod Value
pub mod Api
pub mod Apply
pub mod Object
pub mod Client
pub mod Finalizer
pub mod Selector
pub mod Registry
pub mod Revision
pub mod UpdateStrategy
pub mod Rolling
pub mod Manage
pub mod States
pub mod Informer
pub mod Discovery
pub mod Claiming
pub mod Composite
pub mod Generic
mod Examples
