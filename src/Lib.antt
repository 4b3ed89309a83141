-- ===== src/Lib.antt =====
-- A verification library for the RF mesh workspace: a model of its links, services and
-- stores, with theorems.
--
-- The program is a mesh of direction-finding radio nodes. A node turns its antenna by a servo
-- controller that it reaches over a serial line, and talks to a peer over a spread-spectrum link in
-- time slots; its controller decides which loop drives the servo. It sends its bearings over one or
-- more bearers to a fusion service and to a backend, which keeps them for the web pages and passes
-- commands back down to the nodes.
--
-- Servo: packages/rfmesh-servo/src/rfmesh_servo. Crc models crc.py, Cobs models cobs.py, Protocol
-- models protocol.py (frames, and the command bytes in Protocol/Cmd), Messages and Messages/Replies
-- model messages.py, Link models the reader of driver.py over the `Transport` of transport.py, and
-- Driver models the requests of `ServoDriver`. A function keeps its source's name; a method `pack` or
-- `unpack` has the message's name behind it, and `ServoDriver.move`, `stop` and `reset` are
-- `move_axis`, `stop_axis` and `reset_firmware`. An exception is the error of a `Result`. A driver's
-- state is its buffer, its cached PONG, the clock in ticks, what is still to arrive on the line and the
-- frames written.
--
-- Dsss: packages/rfmesh-dsss/src/rfmesh_dsss. Pn models pn_sequence.py, Crc, Bits and Framing model
-- framing.py, and Spreading models modulation.py and spreading.py, a sample being an integer that
-- stands for the real part the code decides by. A bit array is a list of digits.
--
-- Node: packages/rfmesh-node/src/rfmesh_node. Tdd models comms/tdd.py over whole nanoseconds.
-- Controller models controller.py cut at its awaits: a function is a stretch of code that runs without
-- one, and Controller/Steps says in which orders the stretches of the requests in flight and of the
-- running mode can follow each other. Comms models the slots of comms/comms_loop.py, with the digits of
-- a Dsss frame on the air, and Airlink the chips that carry them over a noisy link; Bearer models
-- bearer/both.py, and Dashboard models dashboard_pubsub.py. Envelope
-- models bearer/envelope.py, Bearers the single bearers wifi.py, lora.py and http.py over it, Channel
-- command_channel.py, Fusion fusion_service.py, Sweep l1_sweep.py and Rendezvous rendezvous.py. Several
-- classes of one file share a module there: `WifiBearer.receive` is `wifi_receive`, and so on.
-- Config models the configurations in packages/rfmesh-contracts/src/rfmesh_contracts/config.py with
-- their validators (Config/Comms that of the comms link, and the code sequence made of it), and Capabilities the start of a node in capabilities.py.
--
-- Backend: deployment/backend/src/both3_poc. Store models store.py, with the abstract store that it is
-- measured by in Store/Calls; Ws and Ws/Frames model ws.py. A handler runs from one await to the next;
-- a send on a socket takes the registries to what the other handlers made of them meanwhile.
--
-- Cot: packages/rfmesh-cot/src/rfmesh_cot. Store models store.py, and Publisher publisher.py cut at its
-- awaits, with the orders of its steps in Publisher/Delivery.
--
-- Sdr: packages/rfmesh-sdr/src/rfmesh_sdr. Loopback models simulator/loopback_channel.py and the
-- transmitter, and Capture with Capture/Reader models io, a component of a sample being a whole number
-- of 65280ths.
--
-- Fusion: packages/rfmesh-fusion/src/rfmesh_fusion. Window, Consensus and Fuser model fuser.py,
-- Confidence and Residuals the files of these names, and Bearings the reports of
-- packages/rfmesh-contracts that they read. Times, lengths and angles are whole numbers; the floats of times
-- are rounded to 53 binary digits (Base/Floats).
--
-- Ml: packages/rfmesh-ml/src/rfmesh_ml. Threats models the threat profiles, their loading and the emitter
-- class that they give.
--
-- Base holds what the others share: tests on natural numbers, lists measured by native numbers, laws of
-- binary digits, signed integers, results with errors, and the dict of Python as a list of entries in the
-- order of insertion (Base/Dict), whose keys come with an equality test as an instance.
--
-- Loops that test a condition run on fuel: a decoder takes one unit per byte, the reader of a wire
-- frame one per arrival and two more, the reader of decoded frames one per byte that is there or to
-- come and one more, the chunks of a capture one per byte and one more: each round takes at least one of them or is the last.
--
-- Parameters: the floats of angles with their conversion to tenths of a degree, and the text codecs,
-- are the record `Host` of Servo/Host.antt, with the round trips the code relies on as its laws. The
-- angles of the controller are any type with a test `<=`; those of the sweep are whole numbers of a
-- unit, counted from -180 degrees. msgpack and the pydantic models of the mesh are the record `Codec` of
-- Node/Envelope.antt, with their round trips as laws; JSON, the models of requests, sockets, random
-- numbers, the fuser and the estimator are arguments of the definitions that use them. The solvers of
-- a fix and the geometry are the record `Solvers` of Fusion/Fuser.antt, and numpy with its generator is
-- the record `Numpy` of Sdr/Loopback.antt.
--
-- Not modelled: acquisition and carrier phase, the pointing of the comms loop, the rounding of
-- floating-point milliseconds in the time slots, the repetition of sweeps, the servo's motion profiles,
-- the serial and TCP transports (I/O), the start of tasks and devices, the models of messages and
-- their geodesy, the markers' XML, the backend's web application, floating-point signal processing,
-- the solvers of a fix, the features and scores of a modulation and the simulation of scenes,
-- the plots, the web pages, the firmware and the ATAK plugin.
pub mod Base
pub mod Servo
pub mod Dsss
pub mod Node
pub mod Backend
pub mod Cot
pub mod Sdr
pub mod Fusion
pub mod Ml
