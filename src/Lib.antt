-- ===== src/Lib.antt =====
-- V2bZ serves proxy nodes for a panel. The panel sends each node its description and its users; a
-- controller per node keeps a core (xray, sing-box or hysteria2) and a limiter in step with them,
-- and reports traffic and online devices back. A connection passes CheckLimit of its node's limiter
-- before a core serves it, and its bytes are counted for its user.
--
-- The parts, the files that model them, and the source:
--
-- Prelude       results, Go's int64 with its wrap-around (Prelude/Int), byte strings (Prelude/Text),
--               maps as association lists (Prelude/GoMap: lookup, insert, delete), itoa.
-- Panel, Conf   the records that the panel sends and the options of a node: api/panel/node.go,
--               api/panel/user.go, conf/node.go, conf/limit.go, conf/cert.go. Panel/Tls is the choice of
--               a server name. Panel/Client is GetNodeInfo up to the body, GetUserList, GetUserAlive,
--               checkResponse and the sums of ReportUserTraffic; Panel/Decode is the switch of
--               GetNodeInfo on the protocol, Panel/Routes its loop over the routes, Panel/Certificate
--               buildPanelCertConfig and parseDNSEnv, and Panel/Finish composes them.
-- Limiter       limiter/limiter.go, limiter/dynamic.go, limiter/rule.go. Types has the state; Users is
--               AddLimiter's entries, UpdateUser and the dynamic limits; Check is CheckLimit in its
--               three parts; Online is GetOnlineDevice; Rules is UpdateRule, CheckDomainRule and
--               CheckProtocolRule; Registry is the table of limiters by tag.
-- Counter       common/counter. Slice is the loop of GetUserTrafficSlice that the three cores share;
--               Conn is the counting connection.
-- Core          core/. Types is the interface of a core; Selector is core/selector.go and NewCore;
--               Xray, Sing and Hy2 are the users of the three cores. Xray/Dispatcher is getLink and the
--               table of links of core/xray/app/dispatcher, Xray/Dispatch is shouldOverride, Dispatch
--               and routedDispatch of its default.go, with DispatchLink in Xray/Dispatch/Link,
--               Xray/Users is core/xray/user.go. Sing/Hook is core/sing/hook.go.
--               Xray/Inbound is core/xray/inbound.go, Xray/Outbound, Xray/Dns and
--               Xray/Node are the files of these names beside it, with AddNode and DelNode.
--               Xray/Sniffer is sniffer.go beside that default.go, with sniffer and the cached reader
--               of default.go. Hy2/Quic is getQUICConfig and getBandwidthConfig of
--               core/hy2/config.go, and Hy2/Outbound its getOutboundConfig with the functions of
--               core/hy2/serverConfig.go.
-- Node          node/. Users is compareUserList, Options is effectiveCertConfig, Report is the list of
--               online devices of a report. Controller is the state of a node; Start, Reload and Monitor
--               are Start, nodeInfoMonitor and the reports, against an abstract core. Certs is
--               node/cert.go and node/lego.go: Files reads and judges a certificate, Metadata is what
--               is remembered of it, Lego the account and the files of ACME, Request requestCert with
--               its modes, and Report what follows it. The host of these calls has a disk and services.
-- Task          common/task/task.go: a task that runs in a goroutine at an interval, as steps of the
--               callers and of the goroutines.
-- Json5         common/json5/json5.go: blanking comments and trailing commas.
-- Tests         the theorems below applied to small inputs.
--
-- How state is kept. A struct is a record, and an operation is a function from the old state to the
-- new one and its result. A map is an association list whose keys are in the order in which Range
-- visits them; a statement about a list of results is about that order. An error is a value of
-- Result, and a panic is a value of its own (Failure.panicked, ClientError.panicked,
-- Outcome.crashed, or none where the comment says so). An operation on a shared map is taken as one
-- step, so that the interleavings of goroutines are those of Task alone.
--
-- Bounds and fuel. An integer that the source adds or multiplies is wrapped to 64 bits. The loops of
-- Json5 take fuel: a byte more than the input is long, which Json5/Total shows to be enough, as each
-- round of a loop goes on by a byte. The loop of sniffer takes a step of fuel per round, and
-- Xray/Sniffer/Ends shows two to be enough. The digits of itoa take a step of fuel per unit of the
-- number.
--
-- Parameters. What stands in packages of other repositories enters as an argument: which regular
-- expressions compile and match, the user manager of an xray inbound, base64, lower case, trimming
-- of space, the decoder of JSON, SHA-256, the outbounds of hysteria, the handlers and the router of
-- xray, and the answers of the panel and of the certificate request, which a round of the monitor
-- takes as one record. The certificates take three interfaces: functions of X.509, PEM, addresses and
-- JSON (Node/Certs, Library), the calls of package os (Disk), and the clock, keys and ACME (Services).
--
-- Not modelled: the HTTP client, and the reading of JSON into the structs of a node; the parts of
-- core/ that start the three proxy libraries, and that fill in the configuration objects of sing-box;
-- the sniffers of the fake DNS and the list that NewSniffer makes, in core/xray/app/dispatcher; the
-- command line in cmd/; logging; reading and watching files in conf/; generated code. They are input
-- and output around the parts above, but for the sniffers, of which any list may be given.
pub mod Prelude
pub mod Conf
pub mod Panel
pub mod Limiter
pub mod Counter
pub mod Core
pub mod Json5
pub mod Task
pub mod Node
pub mod Tests
