-- ===== src/Lib.antt =====
-- Distributed lighting control: Arduino nodes on a CAN bus (src, include) and a server on a PC
-- (SCDTR-PC/SCDTR-PC), which talks to one node, the hub, over a serial port.
--
-- The parts and how they interact. Every node runs `loop` of src/main.cpp: it reads serial commands,
-- handles the CAN frames that the interrupt has put into a buffer, looks for a PC every two seconds,
-- takes one step of the main state machine (start, announcement, calibration, control), sends its data
-- to the hub, and takes one step of the consensus that sets the references of all nodes. The
-- server parses what the hub writes, keeps a queue of commands and a buffer of the last minute, and
-- answers its clients.
--
-- Files and sources:
--   Frame, MsgType          include/communication.h, canMessageId of src/communication.cpp
--   Stream                  include/can_frame_stream.h: new, put, get
--   Command                 src/command.cpp, include/command.h
--   Nodes                   registerNewNode, resetGlob, checkIfNodeExists of src/main.cpp
--   Board, Comm             the send functions of src/communication.cpp; Comm.Packet is
--                           SerialFrequentDataPacket of include/serialComm.h, and Comm.Duty is
--                           sendConsensusDutyCycle and its receiving branch
--   Receive                 Communication::received, a function for each branch
--   Calibration             src/calibrationFSM.cpp
--   Consensus               src/consensus.cpp, with include/consensus.h in Consensus.State;
--                           consensus_iterate is cut into its candidates, and
--                           Consensus.Main has consensus_main, cut into its phases
--   Controller, Lpf, Simulator, Luminaire, Metrics
--                           src/controller.cpp, src/lpf.cpp, src/simulador.cpp, src/luminaire.cpp and
--                           src/metrics.cpp
--   SerialComm              src/serialComm.cpp; SerialComm.Execute is executeCommand
--   Firmware, MainFsm, MainLoop
--                           the globals of src/main.cpp and src/glob.h, src/mainFSM.cpp, and loop,
--                           irqHandler and sendFrequentData of src/main.cpp
--   Setup                   setup of src/main.cpp, with the values of the globals before it, and
--                           Communication::init of src/communication.cpp as the calls that it makes
--   LastMinuteBuffer        SCDTR-PC/SCDTR-PC/LastMinuteBuffer.cpp
--   Server                  SCDTR-PC/SCDTR-PC/Server.cpp: Server.Queue the commands, Server.Parser
--                           handle_read_serial, Server.Frequent receivedFrequentData
--   Session                 SCDTR-PC/SCDTR-PC/ServerConnection.cpp, and the acceptor and the console of
--                           SCDTR-PC/SCDTR-PC/Server.cpp; the handlers that boost::asio calls are events
--   Client, Program         SCDTR-PC/SCDTR-PC/Client.cpp and SCDTR-PC/SCDTR-PC/main.cpp
--   Interpreter             SCDTR-PC/SCDTR-PC/commands.cpp, with startSaveValues and stopSaveValues
--   Prelude                 shared names, lists as C arrays, integers, tests
--   Tests                   concrete states, and runs
-- The children of a module hold its theorems, named for what they are about.
--
-- How the sources are read. State is passed explicitly: an operation takes a record of the object's
-- fields and gives the new one, and what it sends is appended to the output of `Board` or `Server`.
-- `int` and `unsigned int` have 16 bits and `unsigned long` has 32 on the board of platformio.ini;
-- where numbers wrap, `%` is written out. `float`, and `double`, which is the same there, are an
-- interface, `Float`: operations with no laws, where a theorem names the laws that it needs, and
-- `Float.Fixed` is an instance that computes; `Float.Exact` has the laws of numbers that are never
-- rounded, which a `float` does not have, and `Float.Mod11` is an instance with these laws. Clocks, sensor
-- readings and bytes that come in are arguments. C arrays are lists of their length: a write past the end changes nothing, where the source
-- writes to other memory, and a read gives a default.
--
-- Loops are structural recursion, but for the loop that empties the frame buffer: it has fuel for
-- eleven rounds, where the buffer holds ten frames at most. Frames that come in while this loop runs
-- are not modelled; the next round handles them.
--
-- What is not modelled: debug text on the serial ports, which never holds the byte 255; the pins and
-- the registers that setup and Luminaire::init write; the EEPROM except for what setup reads and the
-- stored cost; the library of the CAN controller in lib/arduino-mcp2515, whose sendMessage is the list
-- of frames handed over; on the PC, the sockets, the threads and the mutexes, and the opening of the
-- serial port and of the file. What is written to a socket, a port or the file is taken to be written
-- in full when it is handed over.
pub mod Board
pub mod Calibration
pub mod Client
pub mod Comm
pub mod Command
pub mod Consensus
pub mod Controller
pub mod Firmware
pub mod Float
pub mod Frame
pub mod Interpreter
pub mod LastMinuteBuffer
pub mod Lpf
pub mod Luminaire
pub mod MainFsm
pub mod MainLoop
pub mod Metrics
pub mod MsgType
pub mod Nodes
pub mod Prelude
pub mod Program
pub mod Receive
pub mod SerialComm
pub mod Server
pub mod Session
pub mod Setup
pub mod Simulator
pub mod Stream
pub mod Tests
