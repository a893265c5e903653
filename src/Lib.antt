-- ===== src/Lib.antt =====
-- The RoboMaster simulator of robotics-lab-usi-robomaster/src/robomaster_sim: a server that speaks
-- the binary protocol of a RoboMaster robot over UDP, in front of a simulated robot. Paths below
-- are relative to that directory.
--
-- The parts and how they interact. A client sends a frame. The server decodes it, finds the
-- handler that is registered under the frame's set and command, lets it read the request from the
-- payload and answer, and sends the reply's frame back. Handlers change the command server's own
-- state (connection, publishers, events) and the robot's (actions, devices). In each simulation
-- step the robot runs its actions, and the command server publishes what the client subscribed to,
-- pushes events and watches the heartbeat.
--
-- What models what.
--   Prelude      numbers, lists, bits, and `std::map` as an association list in ascending order of keys
--   Wire         src/protocol.cpp, include/protocol.hpp and `read`, `write`, `key_from` of
--                include/utils.hpp: Bytes, Crc with its tables (crc8_calc, crc16_calc), Frame (RequestT,
--                ResponseT, encode_msg, decode_request) and Discovery (encrypt, discovery_message)
--   Messages     include/command_messages.hpp, subscriber_messages.hpp and connection_messages.hpp: one
--                record per request, whose reader is the constructor that takes the payload, and one
--                encoder per reply. Registry is the table of `register_message` calls in the
--                constructor of src/command.cpp
--   Server       src/server.cpp and include/server.hpp: register_message, answer_request,
--                has_received_bytes and send. World is what the answers change, Answers the `answer`
--                functions of include/command_messages.hpp and the callbacks that src/command.cpp
--                registers, Updates and Subjects the updates of include/command_subjects.hpp,
--                Pushes the actions of include/action.hpp that push their progress, and
--                Node the step of src/robomaster.cpp with src/discovery.cpp, src/streamer.cpp and
--                src/connection.cpp
--   Commands     src/command.cpp, src/topic.cpp, include/topic.hpp and include/event.hpp: the
--                connection's state, the publishers, the events and the step; Subjects encodes the
--                data of include/command_subjects.hpp
--   Robot        the robot. Schedule, Action, Sound, Moves and Tasks are the actions (include/robot/action.hpp,
--                src/robot/action.cpp and submit_action), Lights include/robot/led.hpp and
--                src/robot/led.cpp, Servos servo.hpp and gripper.hpp, Gimbals gimbal.hpp and gimbal.cpp,
--                Wheels chassis.hpp and chassis.cpp, Arms arm.hpp and arm.cpp, Devices and Objects the
--                sensors. Machine is the state of the class `Robot`, Control, Steps and Setters are the
--                functions of src/robot/robot.cpp and include/robot/robot.hpp on it. Maths and Geometry
--                are the numerical part of include/utils.hpp. Dummy is src/dummy_robot.cpp, the robot
--                without a simulator, and Dummy/Strip its camera's image
--   Plugin       the plugin of the simulator in coppeliaSim_plugin: Vision the detector and Bridge the other
--                functions of coppeliasim_robot.cpp, with Bridge/Reads for what they read. Of plugin.cpp,
--                Network reads an address, Interfaces what a robot's interface needs of boost::asio,
--                Registry is the creation of robots (add_robot), Callbacks the functions that scripts
--                call, Steps the plugin's step (onSimulationBeforeActuation), and Reachable the
--                sequences of all these
--   Examples     the theorems applied to concrete inputs
--
-- How it is modelled. A byte is a number below 256, an integer of w bits the number that its bits
-- spell, with the wrap-around written out; a signed field of a message is `signed` of its bits. A
-- `float` is the number that its bits spell, and the operations on floats are the fields of the
-- records `Arithmetic` and `Math`, parameters. The simulator and boost::asio are parameters as
-- well: `Sockets` says which sockets can be opened, `Scene` and `Models` are what the simulator
-- answers, and a `Call` is a call that changes it. What the robot reads from the simulator is a
-- record of readings, and what it forwards to it a list of outputs. An enumerator that is cast from
-- a byte of a message is a number. A pointer into a buffer is the list of the bytes from there to
-- the end of the array; a read outside of it, undefined in the source, gives `none`. State is
-- passed along explicitly. A key of the map of actions is the rank of the action's name in
-- alphabetical order. Fields that the source leaves uninitialised are arguments.
--
-- Fuel. The only loop without a bound in its data is the `while` loop of `Topic::do_step`.
-- `catch_up` runs it on fuel, and gives `none` when the fuel ends. The fuel suffices if it is
-- greater than the number of periods that bring the deadline above 0. The condition is about the
-- float additions: where a period is too small to change the deadline the source's loop does not
-- end.
--
-- Not modelled: sockets, timers and logging; the video encoder; of the plugin, the detector with
-- OpenCV, the code for simulators before 4.8 and for models of the first version; the real-time
-- dummy robot and the test programs; the ROS packages, and simExtROS2, a copy of another project's
-- library.
pub mod Prelude
pub mod Wire
pub mod Messages
pub mod Robot
pub mod Commands
pub mod Server
pub mod Plugin
pub mod Examples
