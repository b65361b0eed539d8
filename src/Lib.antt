-- ===== src/Lib.antt =====
-- A model of the ovn-kubernetes MCP server: the tools that it offers to a language model for looking
-- at a cluster, as far as their own logic goes.
--
-- A tool handler validates the parameters of a request, builds an argument vector, has it run on a
-- node (in a debug pod), in a pod, or by `omc` or `ovsdb-tool` on a must-gather, or reads the files of
-- a sosreport, and cuts the output into a bounded report. Middleware around the handlers hides disabled
-- tools and sets deadlines, as the server binary configures it. The parts, and the code that each of
-- them follows:
--
--   Utils         pkg/utils: safe strings and paths (utils.go), head and tail (headtail), patterns
--                 (pattern), timeouts (timeout), argument vectors (commandbuilder), table names (ovndb)
--   Kernel        pkg/kernel/mcp: get-nft, get-iptables, get-conntrack, get-ip; Kernel.Util is util.go
--   NetworkTools  pkg/network-tools/mcp: tcpdump and pwru
--   Pods          the step that pkg/ovs/mcp/mcp.go and pkg/ovn/mcp/mcp.go repeat in every handler
--   Ovs           pkg/ovs/mcp: ovs-vsctl, ovs-ofctl, ovs-appctl
--   Ovn           pkg/ovn/mcp: ovn-show, ovn-get, ovn-lflow-list, ovn-trace
--   Kubernetes    pkg/kubernetes. Kubernetes.DebugNode: DebugNode and ExecPod of the client, which run a
--                 command in a pod; Kubernetes.Client: its resources and logs; Kubernetes.Tools: the
--                 handlers of pkg/kubernetes/mcp; Kubernetes.Output: the output types
--   MustGather    pkg/must-gather. MustGather.Omc: the client of omc up to its commands, and its lock;
--                 MustGather.Path: the path checks and the commands under the lock;
--                 MustGather.OvsdbTool: the extraction of the databases (utils.go), and in its children
--                 their listing (list-dbs.go) and queries (query.go); MustGather.Server and
--                 MustGather.Tools: the server with its clients, and the handlers
--   Sosreport     pkg/sosreport. Sosreport.Reports: the checks and the manifest; Sosreport.Commands:
--                 plugins and commands; Sosreport.Output: the output of a command; Sosreport.Logs:
--                 the logs of containers
--   Middleware    pkg/middleware: toolfilter and timeout
--   Server        cmd/ovnk-mcp-server/main.go: flags, modes, and the order of the middleware
--   Catalog       pkg/utils/mcptools/catalog.go: FindRepoRoot
--   Files         what the offline tools ask of the operating system
--   Exec          the calls that a handler makes through the function values it is given
--   Text          strings, and what the code uses of strings, strconv and path/filepath
--   Prelude       lists, integers, results and Boolean tests
--
-- How the state and the operations correspond to the code. A string is the list of its code points, a
-- byte outside of UTF-8 being 0x110000 plus its value. An error is the format and the arguments that
-- built it, unrendered. A handler is a tree: it returns, or it makes a call and goes on with the
-- answer; a statement about every path through the tree is a statement about every behaviour of the
-- cluster. `Exec.run` and `Exec.calls` run a tree against given answers. The client of the Kubernetes
-- API is such a tree over its own requests, with `Kubernetes.Api.events` as the trace of a run, whose
-- answers may depend on all that came before. A context is its deadline; the clock is an argument.
-- The offline tools are such trees over the requests of `Files`: files, directories, archives, and
-- commands, whose answers are the operating system's. A path is the text that the code builds;
-- `Text.Paths.Laws.place` is the list of names that it leads through once it is cleaned, innermost
-- first, and IsBelow compares those. A Go map is an association list, in the order in which the code
-- visits it. Calls of the omc client at the same time are steps of `MustGather.Omc.Interleaved.Step`.
--
-- Integers. Go's int is an integer without bound where the code only compares it, and an int64 count
-- of nanoseconds wraps around at 2 ^ 64 in Utils.Timeout and in Server.
--
-- Fuel. `Kubernetes.DebugNode.poll_running` recurses on the number of times that the wait asks before
-- its minute is up, which is the library's to decide and an argument here. `Text.Decimal` prints a
-- number by recursion on fuel, with one more than the number as fuel: a number has no more digits.
-- `Catalog.find_repo_root` recurses on fuel, one round for each directory that it looks at, and returns
-- `none` where the fuel is used up. Everything else is structural recursion.
--
-- Parameters. `Kubernetes.DebugNode.Wait` is when the wait for a pod starts, how often it asks and
-- the error it gives up with. `regexp.Compile`, `json.Unmarshal` and `json.Marshal`, the YAML and JSONPath libraries,
-- the `%q` of fmt and the text of an object's age are functions that are given. What the operating
-- system answers is given too: `MustGather.OvsdbTool.Confined.IsFair` says that the entries of a
-- directory have plain names and that a temporary file is created where it is asked for. The regular
-- expressions of the code itself are written out as functions into Bool.
--
-- Not modelled: the results that accompany an error, since the SDK drops them; log lines; the closing
-- of files, whose errors are only logged; links in the file system, so that a path below a directory
-- may lead out of it by a link that is already there; the registration of tools and their descriptions;
-- the fields of a pod or an object that the code does not read; FormatAge of pkg/kubernetes/types,
-- which computes in floating point; the search in PATH, whose results for omc and ovsdb-tool are given
-- to MustGather.Server; the construction of client-go's clients; the transports and the shutdown in
-- cmd; the error of os.Getwd before the search of FindRepoRoot, which is given the directory to start from;
-- hack/gen-readme-tools.go and the rest of pkg/utils/mcptools, which read the sources of the tools
-- for the documentation and the tests. In `MustGather.Omc.Interleaved` every selection of a must-gather
-- may succeed or fail, in place of the checks of its path, which `MustGather.Path` has.
pub mod Prelude
pub mod Text
pub mod Exec
pub mod Files
pub mod Utils
pub mod Kernel
pub mod Middleware
pub mod NetworkTools
pub mod Pods
pub mod Ovs
pub mod Ovn
pub mod Kubernetes
pub mod MustGather
pub mod Sosreport
pub mod Server
pub mod Catalog
mod Tests
