-- ===== src/Lib.antt =====
-- panda-go: the libraries that its gRPC services share, in Go.
--
-- The program's parts and their modules:
-- - component/nacos/base/nacos-client.go, the client of the Nacos configuration server: Nacos.Param
--   (init, ConfigParam, changeOwnConfigParam2vo), Nacos.Setup (GetNacosClient), Nacos.Client
--   (PublishConfig, GetConfig, WatchConfig, GetAndWatchConfig, RefreshConfig), Nacos.Admin with Types,
--   Queries and Mutations (the fourteen administration calls). A NacosClient is its cache, the handlers it
--   watches for, the calls of handlers so far, and the state behind the SDK. Nacos.Notices runs its calls,
--   the ticks of RefreshConfig and the callbacks of the SDK in any order.
-- - component/nacos/config/grpc-call/config.go and
--   common/grpc-wrapper/grpc_client_wrapper/conn-storage/conn.go, the shared maps from services to
--   namespaces and to connections: Grpc.World.
-- - common/grpc-wrapper/grpc_client_wrapper/grpc-client-wrapper.go (DialWrapper, GetConn): Grpc.Dial.
-- - common/interceptor/grpc-client-interceptor/interceptor.go: RetryGrpcUnaryClientInterceptor in
--   Grpc.Retry, JaegerGrpcUnaryClientInterceptor in Interceptor.Server.
-- - component/k8s/k8s.go (GetNewServiceEntity with its cache): K8s.
-- - common/interceptor/grpc-server-interceptor/interceptor.go: Interceptor.Server;
--   common/interceptor/http-server-interceptor/interceptor.go: Interceptor.Http; what they share:
--   Interceptor.Spans; common/interceptor/init.go: Interceptor.Shutdown.
-- - common/utils/utils.go: Utils.Target, Utils.Trace, Utils.Contexts, Utils.SyncMap, Utils.Arrays,
--   Utils.ErrorCode, Utils.Kebab, Utils.Members (changeStu2Map); MaskPhone in Log.Mask, DeepCopyV2 in
--   Log.Copy, GetLessThenLimitStr in Interceptor.Spans.
-- - common/utils/desensitization/desensitization.go: Log.Value and Log.Hide; common/log/logger.go:
--   Log.Logger.
-- - publish/v2/main.go: Publish.Topics, and its runs in Publish.Topics.Steps. publish/v1/main.go:
--   Publish.Single and Publish.Single.Serving.
-- - component/kafka: Kafka (how the three clients find the broker), Kafka.Consumer, Kafka.Producer, and
--   Kafka.Claim (ConsumeClaim and the reader of its channel, as turns).
-- - common/grpc-wrapper/grpc_server_wrapper: grpc-server-wrapper.go (SetLogLevel, DownloadPprofFile) in
--   Server, prometheus_wrapper/prometheus.go in Server.Collection, holms_wrapper/holms.go in Holmes and
--   Holmes.Manager.
-- - proto/pb/grpc-conn-client.go (CreateClient): Grpc.Clients.
--   panda-account/server/panda-account-server.go: Account. The handlers of panda-account/maIn.go and
--   panda-auth/maIn.go: Services. panda-grpc-gw/main.go: Gateway (RemovePrefix, and the services that main
--   dials) and Gateway.Swagger (serveSwaggerFile, serveK8sApi, corsMiddleware). proto/pb/extra.pb.gw.go,
--   the routes of the common service: Gateway.Common.
-- - base/main.go, the rate limiters TokenBucket and LeakyBucket alone: Limit.
-- GetConn asks the connection store, then the relation of services to namespaces, then the cluster, and
-- dials; the retrying interceptor does the same again when a server is unavailable, and publishes what it
-- finds through the Nacos client; the handler of that configuration drops the connections of services that
-- have moved. The Kafka clients and the profiler read their configurations through the Nacos client, the
-- counts of Server.Collection go through the Kafka clients, and CreateClient goes through GetConn, as do
-- the handlers of Services and the gateway.
--
-- Go itself is in Go: strings are lists of bytes (Go.Text), maps are association lists in the order in
-- which a `range` meets them (Go.Map), an `error` is an option of its text (Go.Error), a call that may
-- panic has an Outcome (Go.Outcome), one that may end the process by log.Fatal is a Process (Go.Process),
-- buffered channels are Go.Chan. strings.EqualFold is the one on ASCII, and sort.Slice is an insertion
-- sort. In Log, where the code goes through runes, a string is its list of code points. Integers that the
-- code only counts with are natural numbers.
--
-- Parameters, since their code is not in the repository: retry-go (External.Retry, with the laws of
-- `retry.Do`), the Nacos SDK, grpc.Dial and Target, the cluster's list of services, the gRPC metadata
-- package (Utils.Contexts, with laws), the readers of status codes and of JSON, MD5, gin's writer and the
-- reading of a request's body, sarama, holmes, archive/zip, runtime/pprof, grpc-gateway's runtime and the
-- writer of net/http (Gateway.Common, with laws), jaeger, the parser of floats and the reads of a file.
--
-- The loop of the retrying interceptor has the three rounds of the source's constant; the loops of
-- ConsumeClaim, of its reader and of the first Publish go on in turns, in any order; every other loop is
-- over a list. Not modelled: log lines and metrics inside the modelled functions, locks and goroutines (an
-- operation is one step, or a turn where its loop matters), the services' main functions but for the
-- gateway's calls of DialWrapper, the other trial programs under base, operator and trace, and generated
-- code. The floats of the leaky bucket are exact here; the token bucket takes the operations of float64 as
-- parameters, on a platform that does not fuse them. In Log.Value two pointers to one object are not told
-- apart, and an interface type that DeepCopyV2 sets has no methods. The logger takes as a parameter how
-- zap.Any types the value that FilterField gives it; Log.Secret says which fields are passwords and phone
-- numbers.
pub mod Prelude
pub mod Go
pub mod External
pub mod Nacos
pub mod Utils
pub mod K8s
pub mod Grpc
pub mod Publish
pub mod Interceptor
pub mod Limit
pub mod Server
pub mod Gateway
pub mod Account
pub mod Kafka
pub mod Holmes
pub mod Log
pub mod Tests
pub mod Services
