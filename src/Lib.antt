-- ===== src/Lib.antt =====
-- Verification of the C utilities and of the ESP32 misting controller built on them.
--
-- Paths are from the repository's root; `frameworks/` stands for
-- esp32MistingController/libraries/frameworks/.
--
-- StaticQueue (frameworks/staticQueue.cpp): the queue of fixed length. `create`, `destroy`, `put`,
-- `get`, `max_len`, `msg_count`, `high_mark` and `drop_count` are staticQueueCreate ...
-- staticQueueDropCount. A handle is an option (`none` is NULL), the memory is a list of cells of one
-- element each, and what calloc returns is an argument. StaticQueue.Fifo is the abstract queue.
--
-- EventFw (frameworks/eventFw.cpp): events queued in a static queue and handed to registered
-- callbacks. `init`, `add_handler`, `generate`, `process` are eventFwInit, eventAddHandler,
-- eventGenerate, eventFwProcess. Undefined behaviour (an index out of bounds, a NULL pointer) is the
-- result `fault`. What callbacks do is a parameter. The loop of `process` takes fuel; one unit for
-- each event queued or still to be generated is enough.
--
-- PlatformTimer (frameworks/platformTimer.cpp): what platformTimerStart stores and asks of the system,
-- on Arduino (`start`), NRF (`start_nrf`) and Linux (`itimer`).
--
-- TimerFw (frameworks/timerFw.cpp): timers counted down by the interrupt `tick` (pfTmrCb). Realtime
-- callbacks run in it, the others in `fw_process` (timerFwProcess). `create`, `start`, `stop`,
-- `pause`, `resume`, `update_interval`, `destroy` and the functions of TimerFw.Query are the functions
-- of timerFw.h. The loops run over gMaxTimers entries, so they need no fuel. Interrupts fall between
-- operations: the code has no synchronisation, and asks for some in comments.
--
-- JumpStateMachine (esp32MistingController/jumpStateMachine.ino): the states of the mist cycle, on the
-- timers of TimerFw. `execute` is executeStateMachine, `on_expiry` the callbacks of the timers,
-- `init_jump_state_machine` is initJumpStateMachine. No operation returns another event than EVENT_NA,
-- so two rounds of fuel are enough for the loop. What the BLDC motor, the stepper motor and the
-- high-voltage module are told is recorded; JumpStateMachine.Spec says what is on in which state.
-- `scaled` is the product of a time and a million without its fraction, a parameter; `float_to_int` is a
-- fault where the product is not an int. The write of gEvents[EVENT_MAX], past the array's end, is a fault
-- of `init_jump_state_machine`; `create_timers` is the rest of the function. JumpStateMachine.Phases
-- follows the timers that drive the cycle.
--
-- Platform (esp32MistingController/platform.ino): bytes and shorts kept in the EEPROM, whose library
-- is a parameter with its documented behaviour as laws. BootConfiguration
-- (esp32MistingController/bootConfiguration.ino): the flags in its first bytes; the functions for the
-- three parts of the configuration are `is_present`, `set_presence` and `clear_presence` of a `Part`.
--
-- PlatformConfig (esp32MistingController/platformConfig.ino): keys and values, kept as the text
-- "key:value\0key:value\0\0" in a buffer of 500 bytes, which is stored in the EEPROM, and as an array.
-- `strtok` is the library's function on a buffer. PlatformConfig.Text is the text of a list of
-- configurations, PlatformConfig.Load reads it back, PlatformConfig.Store changes the array and writes
-- the text; `set_config`, `get_config`, `del_config`, `init_set_up` are setConfig, getConfig, delConfig,
-- initSetUp. PlatformConfig.Store.Represents is the list that a store stands for. The loops over the
-- buffer take 501 rounds of fuel, one for each byte and one for the end.
--
-- Configuration (esp32MistingController/configuration.ino): the interface of that store.
--
-- TcpControl (esp32MistingController/tcpControlServer.ino): the commands of the app. `store_message` and
-- `command_decoder` are storeMessage and commandDecoder, on a messenger with the buffer of 256 bytes.
-- TcpControl.Device is the state that commands change: the state machine, the store, the event framework
-- and the variables of the file. `handle_tcp_control_messages` takes a byte, stores it, and decodes and
-- processes a message that is ready; `handle_device_state`, `handle_config_update_json`,
-- `change_device_name`, `response_wifi_config`, `check_hv_module_tcp` and `store_device_id` are the
-- handlers of that name. The JSON library, atof and atoi are parameters.
--
-- Wifi (esp32MistingController/wifi.ino): `connect_with_ap`, `init_ap_scan` and `get_ap_list` are
-- connectWithAp, initApScan and getApList, for given answers of the WiFi library. The loop of
-- `connect_with_ap` takes 31 rounds of fuel; it gives up in round 30. UdpMulticast
-- (esp32MistingController/udpMulticast.ino): discovery packets, their answers, and the cloud's messages.
--
-- DeviceMonitor (esp32MistingController/deviceMonitor.ino): the measured values and the alert bits, and
-- in DeviceMonitor.Response the responses of the motor driver (commandRespDecode). The separators are
-- passed to strtok as addresses of characters, so the strings that stand there are arguments. The request
-- that getDeviceMonitorData sends, the LED and the printing are left out of it.
--
-- HardwareControl (esp32MistingController/hardwareControl.ino): the commands to the BLDC motor, the stepper
-- motor, the high voltage and the sensors, for given readings. `map` of the Arduino core is a parameter
-- with its documented formula as hypothesis. HardwareControl.Uart is the buffer of 256 bytes that gathers
-- a response up to its '#'. The set-up of pins and drivers only writes registers.
--
-- MainProgram (esp32MistingController/esp32MistingController.ino): the events of the application and
-- their handlers. `register_event_handlers` is registerEventHandlers, and MainProgram.Registered is the
-- table it makes. MainProgram.Network joins and leaves networks (initNetworkConnection, evtApConnect,
-- evtApDisconnect, evtWifiStatus), MainProgram.Status reports and reacts to alerts, MainProgram.SetUp is
-- setup from the configuration on, and MainProgram.ApList is evtGetApList. They work on the device of
-- TcpControl, hence on the same store, state machine and event queue as the commands. MainProgram.Timers
-- are the timers of createApplicationTimers, on a framework whose callbacks are a parameter, since the mist
-- cycle has its own. What the WiFi and JSON libraries answer is an argument. `boot` and `resume_machine`
-- are the parts of setup before and behind initJumpStateMachine. The status is sent as the first 149 bytes
-- of its text, which a parameter `print` makes; the other messages are kept as their members, without
-- their truncation to the buffers of the program.
--
-- Common.Strtok is strtok on a buffer with several separators, Common.Run the results of code that can
-- fault, Common.Int the signed integers of 32 bits.
--
-- GenericList (genericLinkList/genericLL.c): the linked list of copied elements; `s_list_sort` is
-- sListSort, and so on. The nodes behind a pointer are a `Chain`. The recursions of the sort take as
-- much fuel as there are nodes, and one.
--
-- Not modelled are the registers and pins, the sockets and the JSON texts, which only call libraries;
-- evtFlushBuffer and the order of the calls in loop(); the exercises in linkList and functionPointer;
-- system-utilities-c, whose frameworks have the same text as the modelled files and whose other tools are
-- system calls; the libraries of other projects.
pub mod Common
pub mod ErrorTypes
pub mod StaticQueue
pub mod EventFw
pub mod PlatformTimer
pub mod TimerFw
pub mod JumpStateMachine
pub mod Platform
pub mod BootConfiguration
pub mod PlatformConfig
pub mod DeviceMonitor
pub mod Configuration
pub mod TcpControl
pub mod Wifi
pub mod UdpMulticast
pub mod GenericList
pub mod HardwareControl
pub mod MainProgram
