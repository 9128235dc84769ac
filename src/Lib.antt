-- ===== src/Lib.antt =====
-- gru: configuration management by catalogs of resources, which minions run for tasks in etcd.
--
-- Prelude: what the library shares. Maps are association lists where an insertion keeps a key in
-- its place; a map that Go ranges over in a random order is taken in the order of its list, and
-- every theorem holds for each list.
--
-- Graph (graph/graph.go, graph/node.go): nodes are addresses in a heap, since the sort removes
-- edges from nodes that others point to. `Graph.Sets` is the interface of the set library, with
-- its documented laws; `Graph.Sort` is `Sort` on fuel, one round for each node of the graph,
-- which is enough (Graph/Sort/Order.antt); `Graph.Reversed` is `Reversed`.
--
-- Resource (resource/resource.go, resource/property.go, resource/collection.go): a resource is a
-- record of methods over a world `W`, each of which may dereference nil; `Resource.Base` is the embedded struct,
-- `Resource.Collection` has `CreateCollection` and `DependencyGraph`. `Resource.Package` and
-- `Resource.Shell` are resource/package.go and resource/shell.go, `Resource.File`,
-- `Resource.Directory` and `Resource.Link` are resource/file.go; `Resource.Settle` has what a
-- resource with the states present and absent owes to the runs of the catalog. `Resource.Service`
-- has the services of resource/service_linux.go and resource/service_freebsd.go, `Resource.Sysrc`
-- the variables of resource/sysrc_freebsd.go, `Resource.Vsphere` the resources of
-- resource/vsphere*.go over a parameter for the client of the server.
--
-- Catalog (catalog/catalog.go): `Catalog.Load` is `Load` from the executed module on,
-- `Catalog.Execute` is `execute` with triggers and failed dependencies, `Catalog.Run` is `Run`:
-- the main goroutine and the workers take steps in any order, and a step processes one whole
-- resource. The Lua interpreter is a parameter.
--
-- Task, Minion (task/task.go, minion/etcd.go) and Client (client/etcd.go): both sides of etcd.
-- The record `Host` has the calls that they make of etcd, JSON, the clock and the operating
-- system, the resources that a Lua module adds, and the choices of the Go scheduler.
-- `Minion.Runs` is the part of `processTask` that loads and runs a catalog, under the scheduler
-- of `Catalog.Run.Schedule`, whose two rounds for each node are enough; `Minion.Process` is the
-- rest of `processTask`, `Minion.Queue` the queue and the turns of the services.
-- `Minion.Services` is `Serve` and `Stop`: the services move side by side, in any order, and hand
-- tasks to the runner over the unbuffered channel. `Classifier` is the directory classifier.
-- `Client.Search` is the concurrent lookup of minions by four workers, `Client.Interface` is
-- client/client.go. `Resource.Registry` is resource/provider.go and resource/lua.go,
-- `Resource.Builtin` the init functions of resource/ on Linux and on FreeBSD.
--
-- Command (gructl/command): the commands of gructl as functions of a client and of the flags, which
-- print tables or exit with an error and a code. `Command.Pattern` is utils.go, `Command.Inspect`
-- and `Command.Results` are the commands that read, `Command.Push` and `Command.Report` push.go and
-- report.go, `Command.Local` and `Command.Draw` apply.go, serve.go and graph.go, which load a
-- catalog or start a minion; `Command.Main` has the twelve commands under their names, for
-- gructl/gructl.go.
--
-- Errors and Utils (utils/list.go, utils/git.go, utils/file.go): error values, results with a nil
-- dereference, the string lists, the git repository, and the file utilities over the calls `Fs`;
-- `Utils.File.Copy` copies files and directories, on fuel that bounds the depth of the calls.
-- `Utils.Guarded` has the containers of utils/map.go and utils/slice.go as goroutines that move
-- one at a time.
--
-- Not modelled: the parsing of flags and the layout of tables, which are a library's; `WalkPath`,
-- whose loop is a library's too; log output other than the catalog's, and the lines that resources
-- and workers print into the catalog's log while they run. A value in etcd that is the JSON text null, which decodes to a nil
-- task, is left out. In `Minion.Services` a task is
-- processed, and an event of the queue handled, in one move. Apart from `Utils.Guarded`, what a
-- lock guards happens in one step.
pub mod Prelude
pub mod Graph
pub mod Errors
pub mod Utils
pub mod Resource
pub mod Catalog
pub mod Classifier
pub mod Task
pub mod Minion
pub mod Client
pub mod Command
pub mod Samples
