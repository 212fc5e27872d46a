-- ===== src/Lib.antt =====
-- ts-dns, a DNS server that picks an upstream group by rules. A query comes in by DNS or by HTTPS
-- (inbound/doh.go), passes the wrapper that swaps configurations and the handler (inbound/handler.go),
-- which asks the hosts (hosts/hosts.go), then the cache (cache/dns.go), then the first group
-- (outbound/groups.go) whose rules (matcher/adblock.go over matcher/trie.go) match; the redirector
-- (redirector/redirector.go) may send it on to another group by the addresses of the response. A group
-- rewrites names by its hijack rules and chooses among its callers by what it remembers of each host.
--
-- Common holds lists over native numbers, byte strings, string-keyed maps and fallible chains. Dns has the
-- messages of github.com/miekg/dns and records of operations for that package and Go's net;
-- Regexp has one for Go's regexp. Their laws state documented behaviour, and Samples has instances
-- of all of them. Code outside of the repository appears only as such records or as parameters.
--
--   Config      config/config.go         unmarshal_yaml, marshal_yaml (StringSlice)
--   Utils       utils/dns.go             Ecs, Records: the functions; Loops: deletion in place
--   Matcher     matcher/trie.go          Trie: add (Add), match (Match), walk (Walk)
--               matcher/adblock.go       AbPlus: new_abp_by_text, match, optimize, extend
--   Cache       cache/dns.go             new_dns_cache, get (Get), set_response (Set)
--   Outbound    outbound/groups.go       Builds: build_groups (BuildGroups), match_group (Match);
--                                        Addresses, Durations: what it reads (ensurePort, parseDuration);
--                                        Hijack: process_hijack_rules, clean_hijack_answer;
--                                        CallerStats: candidates_for_host, record_caller_success;
--                                        Queries: handle (Handle), first_response, fastest_resp;
--                                        Worker: post_process (PostProcess), step (Start, Stop);
--                                        GfwList: grab_gfw_list, refresh_gfw_list
--               outbound/caller.go       DnsCaller: call (Call), get_conn, deadline;
--                                        DohCaller: resolve, get_client, step (run, getClient, Exit)
--   Redirector  redirector/redirector.go new_cidr_redirector, redirect, redirect_from
--   Hosts       hosts/hosts.go           new_dns_hosts, get
--   Inbound     inbound/handler.go       Handler: handle, serve_dns; Wrapper: reload_config, stop;
--                                        Startup: new_handle (newHandle)
--               inbound/doh.go           Doh: serve_http, xff_client_ip
--   Server      cmd/main.go              parse_listen, start_plain (runPlain), start_doh (runDoH), step
--
-- A message is a value, so that Copy is the identity and an update in place gives a new message.
-- Stateful code takes and returns its state; what a mutex guards is one step. A panic or an error is
-- `none`. Names are ASCII byte strings. A Go map is an association list, whose order stands for the
-- unspecified order of Go's range. The cache counts whole seconds and the caller statistics nanoseconds,
-- both below the bounds of Go's integers. The only loop on fuel is the deletion in place of
-- Utils.Loops, whose fuel is the length of the list; all others are structural.
--
-- Goroutines are machines (Common.Machines): a state and a step function that refuses an event which cannot
-- happen now, so that a list of events is an interleaving. A liveness result bounds the steps that a machine
-- takes by itself by a rank and says where such runs come to rest: it assumes that the scheduler takes
-- enabled steps, and that a resolution, a refresh and a closed server end, as their timeouts and
-- libraries see to.
--
-- Not modelled: the exchange of DoHCallerV2.Call over HTTP and of ExchangeContext over UDP, the kernel's IP sets
-- behind their interface, the pings of utils/ping.go, whose result is a parameter of Queries, the response
-- writer's fields, the YAML library, flags, logging, the reading of the configuration file, and the mocks of
-- the tests.
pub mod Common
pub mod Dns
pub mod Regexp
pub mod Config
pub mod Utils
pub mod Matcher
pub mod Cache
pub mod Outbound
pub mod Redirector
pub mod Hosts
pub mod Inbound
pub mod Server
mod Samples
