-- ===== src/Lib.antt =====
-- Verification of the Network Service Mesh SDK: the pools of IP addresses and of prefixes, the
-- IPAM servers, the life and the path of a connection, the matching of endpoints, and the registries.
--
-- IpPool (pkg/tools/ippool): a pool keeps the addresses that are free as a red-black tree of ranges.
--   Address and Range are types.go: an address is two 64-bit words with their wrap-around.
--   Tree is the tree of ippool.go; parent pointers are the frames of a zipper, so that a node with
--     its frames is a position in the tree. Tree/Insert and Tree/Delete are its insertion and deletion
--     cases. An operation gives `none` where the source would read through a nil pointer.
--   Chain is the abstract view: a list of ranges in order that neither meet nor adjoin.
--   Pool has addRange and deleteRange, which call each other's steps on the tree; Pool/Access has the
--     exported methods. The recursions run on the number of nodes as fuel, for each call removes a
--     node before it calls itself; the theorems say that this is enough.
--   Prefixes is getPrefixes; its loops run at most once for each value of a word.
-- PrefixPool (pkg/tools/prefixpool): a pool of prefixes. A prefix is the address and the length that
--   its text spells. Pool has ExtractPrefixes and Extract, Exclude and Release the methods of these
--   names. A range over a map is in an order that is an argument. The loops that split run on one more
--   step than there are bits behind the mask, the passes that merge on one more than there are
--   networks; the theorems say that this is enough.
-- Ipam (pkg/networkservice/ipam/point2pointipam): the server that gives a connection a pair of
--   addresses, over the pools. Strings that hold addresses are what package net reads from them.
-- SinglePointIpam (pkg/networkservice/ipam/singlepointipam): the server that gives a connection one
--   address. Its loops pull an address in each step, and run on more steps than there are addresses.
-- Vl3Ipam (pkg/ipam/vl3ipam): the server that hands out prefixes of one pool.
-- Begin (pkg/networkservice/common/begin): the element that serialises the calls for a connection and
--   remembers it in an event factory. The server is a step relation over a queue of jobs, for the
--   executor of a factory runs one job at a time; what the chain behind answers is an argument. Accepts
--   is the contract towards that chain, Merge is merge.go, and Client has what the client does otherwise.
-- UpdatePath (pkg/networkservice/common/updatepath): how an element of a chain moves a connection to
--   its own path segment. The rest of the chain and the new ids are arguments.
-- MatchUtils (pkg/tools/matchutils): which endpoints a request may use. What text/template makes of
--   a label is an argument.
-- Registry (pkg/registry/common/memory): the memory registry of endpoints as a step relation: the store,
--   the executor and its tasks, and the channels of the watchers; and the Unregister of that of services,
--   in which it differs.
-- LocalBypass (pkg/registry/common/localbypass): the URLs that the registry of a node hides.
-- RoundRobin (pkg/networkservice/common/roundrobin): the selector of endpoints.
-- ExcludedPrefixes (pkg/networkservice/common/excludedprefixes): the client that keeps the addresses
--   of a connection out of the later ones, with its awareness groups, and the server's request. What
--   package net reads from a prefix is an argument.
-- Vni (pkg/networkservice/common/mechanisms/vxlan/vni): the server that gives a VXLAN mechanism its
--   number. The numbers that its loop draws are an argument; when they end, the loop still draws.
-- Prelude has what the others share, and Tests samples of the theorems.
--
-- Not modelled: the locks. A call is one step: a method that changes a pool holds its lock for the whole
-- of its run, and those that take none (Contains, ContainsNet and Empty of IpPool) are taken as run with
-- no other call beside them. Nor are modelled the parsing and
-- printing of package net; logging; and the other parts of the repository.
pub mod Prelude
pub mod Begin
pub mod IpPool
pub mod UpdatePath
pub mod MatchUtils
pub mod Ipam
pub mod PrefixPool
pub mod ExcludedPrefixes
pub mod Registry
pub mod LocalBypass
pub mod RoundRobin
pub mod Vl3Ipam
pub mod Vni
pub mod SinglePointIpam
pub mod Tests
