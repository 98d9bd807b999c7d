-- ===== src/Lib.antt =====
-- dingdong: the firmware of a doorbell-sized attendance device on two ESP32 boards. It listens for
-- bonded phones over BLE, records when each comes and goes, and serves the records from a web page.
--
-- The program's parts. components/ble watches the phones and decides on IN and OUT; it records them
-- through components/events, which drops repeated sightings, asks components/workers for the worker
-- of the phone, and appends a JSON line to the log of components/storage. The pages of
-- components/http_app read and edit that log and the registry, behind the sessions of
-- components/session and the admin password of components/config, which also counts boots and
-- uptime. components/log_buf keeps the console output for a page. components/wifi_mgr joins the network or,
-- where it cannot, opens an access point, on which components/captive_portal answers every name with the
-- device. The rest is start-up and the LED. components/time_sync gives the wall clock, without which no IN or OUT is
-- recorded.
--
-- The files, with the code that each is about:
--   Common     names for all: Boolean tests, C arrays as lists, byte strings, esp_err_t
--   Stdio      what the code uses of C's stdio, stdlib and string functions
--   Util       components/util/include/dd_util.h, and the scanf of an address in dd_worker.c
--   Nvs        the key-value store of ESP-IDF as a record of operations, with the laws the code relies
--              on, and Nvs/Memory, a store in memory that satisfies them, for the tests
--   Log        components/log_buf/dd_log.c: buf_write, log_vprintf, dd_log_read_tail, dd_log_clear
--   Session    components/session/dd_session.c: create, is_valid, destroy, destroy_all, hex_encode
--   Storage    components/storage/dd_storage.c: append with rotation, iterate, wipe; Storage/ByTime the
--              rotation by time, Storage/Delete the two deletions
--   Workers    components/workers/dd_worker.c: loading, saving, lookups; Workers/Change create, update,
--              delete, restore and wipe
--   Config     components/config/dd_config.c: passwords, WiFi and boot mode; Config/Erase the factory
--              reset, Config/Device the device name
--   Metrics    the same file from dd_metrics_load on: boots, uptime, boot loops, cause of a restart
--   Presence   components/ble/dd_ble.c: the presence table; Presence/Tick its tick, Presence/Links the
--              link events and the bonds, Presence/Settings the view of the web page and the timeout
--   Pairing    the pairing window of the same file and the security events of gap_event_cb
--   Clock      components/time_sync/dd_time.c: the sync anchor, the NTP server, the starts of SNTP
--   Events     components/events/dd_event.c: recording with the debounce, and in Events/Tracks the
--              newest event of a peer. It calls the models of Workers and Storage as the code calls those components.
--   Captive    components/captive_portal/dd_captive.c: the DNS answers
--   Http       components/http_app/dd_http.c: bodies, cookies, the guard of the handlers
--   Attendance components/http_app/dd_http_attendance.c: Attendance/Listing the list of events, Export
--              the CSV rows, Visits the pairing of arrivals and departures, Today and Calendar the two
--              summaries. They walk over the log by event_iter of Storage; Attendance/Lines is such a walk
--              as a fold over the lines that parse.
--   System     components/http_app/dd_http_system.c: System/Login the login, the logout and the change of
--              the password, System/Reset the factory reset with the BOOT button of main/main.c,
--              System/Backup the backup and the restore. A Site is what the first two change: the sessions,
--              the settings and the log.
--   Wifi       components/wifi_mgr/dd_wifi.c: the events of the station, the timer that gives up, and the
--              mode at boot, over the counters of Metrics and the settings of Config
-- A definition keeps the name of its C function, without the prefix dd_ and the component's name. A
-- module below one of these proves something about it; its Tests run it on concrete data.
--
-- How the code is modelled. A function of the code takes the state it changes and returns the new
-- one. Numbers are natural numbers; a uint16_t, uint32_t or uint64_t that is counted up is taken
-- modulo its range, and a time in an int64_t is one that is not negative. A C string is its bytes up to
-- the NUL. A call holds its mutex throughout, so calls do not interleave. What the hardware, the
-- file system, the clock, NimBLE and the random number generator answer is an argument, and so are
-- the NVS, the PSA crypto library and cJSON, on which a theorem states what it relies on.
--
-- Bounds. The buffers have the sizes of the code: 65536 bytes of log, four sessions of a token of 64
-- characters, 1024 bytes of an event line, 32 workers, 8 presence slots, 4 debounce slots, 16 open visits, 16 workers of today, 62 days, bodies
-- of 8192 bytes, cookie headers of 1023 and DNS datagrams of 512. skip_qname runs on fuel of the length of the
-- datagram, and a label takes one byte at least, so it never runs out. The printing of a
-- decimal number runs on fuel of one more than the number, which is more than it has digits; the loop that loads
-- the workers has as many steps as there are ids below the next one.
--
-- Not modelled: mounting LittleFS and the size it reports, the start of NVS and PSA, the set-up of
-- NimBLE with advertising and scanning, the settings of the WiFi driver, and the timers that defer a
-- restart; the handlers on devices, on settings and on firmware in components/http_app, its table of
-- routes, and the three posts on the log; components/led; and of main all but the BOOT button. They are calls of the
-- parts above or of ESP-IDF.
pub mod Common
pub mod Log
pub mod Session
pub mod Stdio
pub mod Nvs
pub mod Util
pub mod Config
pub mod Metrics
pub mod Presence
pub mod Pairing
pub mod Events
pub mod Attendance
pub mod Captive
pub mod Clock
pub mod Http
pub mod System
pub mod Wifi
pub mod Workers
pub mod Storage
