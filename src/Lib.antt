-- ===== src/Lib.antt =====
-- gnat: a small MQTT broker (include/gnat/) in C++, as a shallow model.
--
-- The parts and the files that model them:
--   Fields: the readers of one field of a packet, ReadVariableByteInteger, ReadString and ReadField
--   (include/gnat/packets.h). Header: PacketType and FixedHeader. Buffer: the static send buffers.
--   Proto3: the packets of MQTT 3, a module for each struct of the namespace proto3, with the
--   functions ReadFrom (`read_connect`, `read_publish`, ...) and SendOn (`send_connect`, ...).
--   Packet: the class Packet, a packet that streams from a connection.
--   DataStore: the class DataStore (include/gnat/datastore.h), its entries and its observers; Running
--   is about the shape of the entries, Refinement about a specification as functions, Contents about a
--   quotient that forgets the order of the map, Order about Get and permutations of the entries.
--   Key: integer keys (include/gnat/key.h) and the specialisations of DataStore for both key types.
--   Names is what the server relies on of a key type, as an interface that both fill.
--   Status: the class Status (include/gnat/status.h).
--   Server: Server::HandleMessage (include/gnat/server.h), with a file for its state, for the lambdas of
--   SUBSCRIBE, for CONNECT and for the branches that remain. Keeping and Reaching are about every run and
--   every sequence of packets, Ending about fuel, Fanout about who is sent what on a network of sockets.
--   Service puts ReadNext, HandleMessage and the packet's destructor together, as
--   src/server_test.cpp does, for many clients on a network of sockets: Spec says what a broker
--   promises, in messages and replies, Mirrors when a data store shows that, Messages,
--   Publishing and Topics serve one message, Turns is a program that serves many clients, and
--   Running its runs.
--   Log: the macros LOG and DEBUG_LOG, serial_printf and LogHex (include/gnat/log.h).
--   Arduino: arduino::Connection (include/gnat/arduino-connection.h), over a WiFiClient.
--   Connection: what the packets and the server ask of a ClientConnection, and ConnectionType.
--   Base: Booleans, lists, bits, the outcomes of a run, and what every outcome ensures. Examples:
--   concrete clients and packets.
--
-- How they interact: the server reads a packet's fields through Packet, which counts the bytes that are
-- left and reads from its connection; it sends answers on that connection; PUBLISH sets an entry of the
-- data store, which calls the observers; SUBSCRIBE adds an observer, which sends a PUBLISH on a
-- connection of its own.
--
-- A program over a state `S` is a function from `S` to an Outcome: `done` with a value and the state, or
-- a failed assert, an exception, a run that the C++ standard leaves undefined, or a loop out of fuel. A
-- template parameter is a parameter here: the connection (ClientConnection), the key type (KeyType), the
-- clock, the map's iteration order, and the world that the connections reach. A callback that changes its
-- captured variables returns them.
--
-- Numbers: bytes, `uint16_t` and `uint32_t` are natural numbers, with the wrap-around written out where
-- the code can reach it; `int` has 32 bits, the target is little-endian, and asserts are on. Whether
-- `char` is signed is a parameter of the integer keys. A read that fails has put nothing into a one-byte
-- buffer.
--
-- Fuel: ReadVariableByteInteger has five rounds, since the fifth takes `multiplier` beyond `int`; the
-- length loop of Publish::SendOn has five, enough for 31 bits; the loop of Subscribe::ReadFrom has a round
-- for each byte left. The loops of arduino::Connection wait for a peer and take their fuel as an argument.
--
-- Not modelled: the calls of LOG and DEBUG_LOG in the other files, beside those of Packet::Dump, the
-- choice of `optional` (include/gnat/optional_fill.h) and the vendored include/gnat/optional.hpp, the
-- tests under src/, the build files, and what the code calls outside the repository, which are
-- parameters: the WiFiClient, vsnprintf, printf and Serial.println.
pub mod Base
pub mod Fields
pub mod Buffer
pub mod Header
pub mod Proto3
pub mod Connection
pub mod Packet
pub mod DataStore
pub mod Status
pub mod Key
pub mod Log
pub mod Server
pub mod Arduino
pub mod Examples
