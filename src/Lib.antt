-- ===== src/Lib.antt =====
-- The Things Network: routers, brokers, network servers and handlers route LoRaWAN messages between
-- gateways and applications. This library models the core of the program that is written in Go.
--
-- The parts, and how they interact: a router takes the messages of gateways, offers transmissions for
-- answers and keeps the schedule of each gateway; a broker collects the duplicates of an uplink, asks the
-- network server for the devices with the address, finds the one whose key validates the message, checks
-- its frame counter, and forwards it to the handler of the application; the network server keeps the state
-- of the devices, prepares the answers and signs the downlinks; the handler decrypts what a device sends,
-- publishes it, keeps the queue of the messages for the device, puts them into the frames that the network
-- server has prepared, and accepts the joins of devices, which the broker finds by a challenge.
--
-- Base: shared notation, lists, texts, errors as values, integers.
-- Fcnt: utils/fcnt/fcnt.go, GetFull.
-- Errors: utils/errors/errors.go, the typed errors and their way through gRPC.
-- Toa: utils/toa/toa.go, the time on air, over a parameter for float64.
-- Types: core/types, with DataRate (data_rate.go), Hex (parse_hex.go), FixedBytes (eui.go, keys.go,
--   activation.go, dev_addr.go: one set of methods for all of the types, which differ in their size and
--   name) and DevAddr (prefixes, dev_addr.go).
-- Band: core/band, the settings for adaptive data rate; Band.Adr has their laws.
-- Router.Schedule: core/router/gateway/schedule.go. Router.Options: the options of core/router/downlink.go,
--   over parameters for float64, the use of the channels, and the plans of package band.
-- Lorawan and Messages: the data that the components exchange. The functions of package
--   brocaar/lorawan are a parameter.
-- Broker.Deduplicator: core/broker/deduplicator.go. A run is a list of events, one for each access
--   under a lock.
-- Broker.Uplink: core/broker/uplink.go, HandleUplink. The network server, discovery and sort.Sort are
--   the parameter Services.
-- Broker.Downlink: core/broker/downlink.go, with the identifiers that core/router/downlink.go gives to
--   the options. Broker.Activation: core/broker/activation.go. The answers of the handlers, in the order
--   in which they arrive, are a part of the parameter Services.
-- Broker.Registry: core/broker/broker.go, the channels of the routers and the handlers.
-- NetworkServer.Device: core/networkserver/device/device.go and frames.go.
-- NetworkServer.Mac and NetworkServer.Adr: mac.go, uplink_mac.go, downlink_mac.go and adr.go.
-- NetworkServer.Handlers: uplink.go, downlink.go, and HandleActivate of activation.go. The device
--   store, the codec and band.Get are the parameter Env.
-- NetworkServer.Devices: get_devices.go. NetworkServer.Prefixes: networkserver.go.
-- Storage: core/storage, with Redis (the commands of the client, a parameter, with what Redis documents of
--   them in Redis.Laws), Queue (redis_queue_store.go), Map (redis_map_store.go, Get and Set for records
--   that no migration changes, over package go-utils/encoding as a parameter) and Options (util.go).
-- Otaa: utils/otaa/session_keys.go, over a parameter for AES.
-- Handler: core/handler, with Types (core/types and device/device.go), Queue (device/downlink_queue.go on
--   the queues of Storage), RedisStore (device/store.go on Storage, with ChangedFields of
--   device/device.go), Stores (what EnqueueDownlink relies on of a store), ConvertLorawan
--   (convert_lorawan.go; its child Downlinks has ConvertToLoRaWAN), ConvertFields (convert_fields.go; the
--   JavaScript machine is a parameter), World (what has been sent to the channels, in order), Downlink
--   (downlink.go), Uplink (uplink.go) and Activation (activation.go).
-- Topics: the topics of mqtt/topics.go and the routing keys of amqp/routing_keys.go.
--
-- Integers are natural numbers with their wrap-around written out. SNRs are in quarters of a decibel, and
-- times in nanoseconds. Loops are structural recursion; the loop with fuel that raises the power in
-- Band gets the distance to the maximum as its fuel, which it uses up three at a time. The loop in
-- Handler.Activation that draws random nonces has a bound too: a bound that reaches a nonce that is not
-- used is enough, and where it is reached the call is said to block.
--
-- Not modelled: the connections over gRPC, MQTT and AMQP, the inside of Redis, tokens, logging, tracing and
-- metrics, the command line, and generated code. Also not modelled: the metadata of gateways in the
-- messages to applications (convert_metadata.go), the dry runs and the manager of the handler, the stores
-- of values and sets, the migrations of records, discovery, and the handlers of uplinks and activations of the router.
pub mod Base
pub mod Fcnt
pub mod Storage
pub mod Otaa
pub mod Topics
pub mod Handler
pub mod Types
pub mod Toa
pub mod Band
pub mod NetworkServer
pub mod Router
pub mod Errors
pub mod Lorawan
pub mod Messages
pub mod Broker
