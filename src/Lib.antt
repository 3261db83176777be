-- ===== src/Lib.antt =====
-- Module controller: the Kubernetes controller that lets bases (Java processes with an arklet) run
-- modules (biz), over a virtual kubelet.
--
-- The parts and how they interact. The virtual kubelet, a library, drives a tunnel: it registers
-- nodes and asks the tunnel to start and stop containers, and the tunnel calls back with the bases it
-- discovers and the states of bases and biz. There are two tunnels, one that posts HTTP requests to
-- the bases and one that publishes and subscribes by MQTT; both use the same helpers and messages,
-- and both ask the module deployment controller which containers a new base should run. That
-- controller also watches nodes and deployments and keeps the replicas of peer deployments equal to
-- the number of ready nodes of their cluster.
--
-- Which file models what:
--   Controller.antt, Controller/         controller/module_deployment_controller
--     ClusterName, ReadyNodes, Replicas  getClusterNameFrom..., getReadyNodeCount,
--                                        updateDeploymentReplicas
--     Handlers, Predicates               the event handlers, SetupWithManager's initial sync,
--                                        predicates.go
--     UpdateToken                        the channel updateToken, as a step relation
--     Setup                              SetupWithManager, and its step on the channel
--     Baseline                           QueryContainerBaseline
--   Utils.antt, Utils/                   common/utils/utils.go
--   Model.antt                           common/model, and ArkResponse of ark_service/model.go
--   ArkService.antt                      module_tunnels/koupleless_http_tunnel/ark_service
--   Tunnel.antt                          the callbacks of the virtual kubelet's tunnel interface
--   HttpTunnel.antt, HttpTunnel/         module_tunnels/koupleless_http_tunnel/http_tunnel.go
--     Nodes, Discovery, Commands,        the map of bases, startBaseDiscovery's handlers, the
--     Responses                          commands, and the callbacks for their answers
--     Directory                          what the tunnel knows of its bases, as a function
--     QueryLock                          the lock and flag of QueryAllBizStatusData (one call of it
--                                        is in Commands) under any interleaving, as a step
--                                        relation, and that its calls come to an end
--   MqttClient.antt                      module_tunnels/koupleless_mqtt_tunnel/mqtt and config.go
--   MqttTunnel.antt, MqttTunnel/         module_tunnels/koupleless_mqtt_tunnel/mqtt_tunnel.go
--     Nodes, Messages, Commands, Start   the subscriptions of a node, the message handlers, the
--                                        commands, Start
--   Startup.antt, Startup/               cmd/module-controller/main.go: startTunnels,
--                                        lookupProxyServiceIP, and main (Main)
--   MockBase.antt, MockBase/             suite/http/mock_http_base.go and suite/mqtt/mock_mqtt_base.go
--     Http, Http/                        the base over HTTP, and the HTTP tunnel on it: Network,
--                                        Reports, Discovered
--     Mqtt, Mqtt/                        the base over MQTT; Mqtt/Answers composes it with the tunnel
--   KubeletProxy.antt, KubeletProxy/     staging/kubelet_proxy
--   ReportServer.antt, ReportServer/     report_server/server.go
--   SelfTest.antt, SelfTest/             cmd/self-test: the handlers, statistic, the loops that wait
--                                        for the cluster (Waiting), pressureTest (Pressure, Running)
--   Go.antt, Go/                         what the code uses of Go: errors and panics, strings, strconv
--   Platform.antt, Platform/             types and constants of virtual-kubelet, Kubernetes and arkctl
--   Prelude.antt, Prelude/               shared names, lists, maps and integers
--   Samples.antt                         concrete values for the Tests modules
--
-- How state and operations correspond to the code. A Go method that writes fields is a function on
-- the record of its receiver; what lies outside (the API server, the cache, the MQTT broker, the
-- callbacks) is a state W that the parameters act on: Cluster, Client, Paho, NodeClient, Callbacks.
-- A function that can panic returns an Outcome with the state, since what was done before a panic
-- stays done. An error is an Option or a Result. A Go map is an association list and a pointer an
-- Option. Two parts where interleavings matter, the update token and the query lock, are step
-- relations with one step for each access.
--
-- The components meet in MockBase/Http: the requests of the tunnel go to the handlers of a mock base
-- and its heartbeats go to the tunnel, with the network and encoding/json as hypotheses on the
-- messages that are sent.
--
-- Bounds. An int is 64 bits and an int32 is 32 bits, with the wrap-around written out where the code
-- adds, subtracts or converts. Times are milliseconds since 1970. Loops over lists are structural
-- recursion. Strconv writes a number with as much fuel as the number itself, which is enough since
-- each digit divides it by ten. The two loops of the self test that wait for the cluster have fuel,
-- and for updateReplicas one more than the number of the poll that finds all vnodes ready is enough.
--
-- Not modelled: logging, but for OnBaseUnreachable and the kubelet proxy; decoding of JSON, whose
-- result is an argument or a parameter, and its encoding, which is a parameter; the servers and
-- clients of net/http, resty and paho beneath the parameters; controller-runtime itself,
-- the tracker, and signals but for the exit at a second one; the main of the self test. The goroutine that publishes a baseline is
-- returned by its handler as an action, and a goroutine of a mock base as a task, since they run
-- at some later time.
pub mod Prelude
pub mod Go
pub mod Platform
pub mod MockBase
pub mod Model
pub mod Utils
pub mod Controller
pub mod ArkService
pub mod Tunnel
pub mod HttpTunnel
pub mod MqttClient
pub mod MqttTunnel
pub mod Samples
pub mod KubeletProxy
pub mod ReportServer
pub mod SelfTest
pub mod Startup
