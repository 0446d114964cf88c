-- ===== src/Lib.antt =====
-- Verification library of the voice processing unit (VPU).
--
-- The program takes call packets off a network card, writes the voice of each call to two files, passes
-- fax calls on to a decoder, reports calls to a CDR server, and serves recordings to players. Its parts:
--   * the I/O thread (src/vpu_worker.c) puts packets into eight rings (src/pkt_fifo.c), one a worker;
--   * a worker takes them out and calls `voice_parser` (src/voice_parser.c), which keeps one slot a
--     channel, feeds files and players, and hands fax nodes over;
--   * fax nodes go round between two linked queues (src/fax_queue.c);
--   * call records go into a ring that the sender empties (src/send_cdr.c);
--   * the cycle thread (src/cycle_operation.c) ends silent calls and watches the disks;
--   * the file server (src/file_server.c) and the agent connections (src/conn_serv.c) serve clients.
--
-- Which file models which part:
--   * Fifo: src/pkt_fifo.c. `pkt_fifo_put` and `pkt_fifo_get` under their own names, on a list of slots.
--     Fifo/Inv, Fifo/Refine (a bounded queue) and Fifo/Alias (the pointer that a get hands out).
--     Fifo/Threads cuts both functions into their accesses, and runs them at the same time.
--   * Cdr: src/send_cdr.c. The ring in Cdr (`cdr_send` is `cdr_take` under the lock, and `send_batch`), the
--     socket loops in Cdr/Socket, a round of `conn_cdr_thread` in Cdr/Conn. Cdr/Refine sees the ring as a
--     log of records in flight and waiting; Cdr/Conn/Deliver follows it through any rounds.
--   * Queue: src/fax_queue.c. `EN_QUEUE`, `FETCH_PHEAD`, `DESTROY_QUEUE` and `INIT_QUEUE` as `en_queue`,
--     `fetch_phead`, `destroy_queue` and `init_queue` on a heap of `next` pointers. Queue/Pool
--     runs any calls of them, Queue/Race those with the write of `len` that comes after the unlock.
--   * Voice: src/voice_parser.c. Slots in Voice/Slots, files and players in Voice/Files, `voice_parser` in
--     Voice/Parser and its children; what leaves a slot is a list of effects;
--     `get_filename` in Voice/Naming, which uses Dirs and Conf/DayDirs. The other files prove.
--   * Dirs: `get_root_dir` of src/voice_parser.c, `fill_file_dirs` of src/conf.c and the disk check of
--     src/cycle_operation.c.
--   * Cycle: src/cycle_operation.c. The sweep of a slot, the end of the process and `check_filename` in Cycle,
--     a whole round of `cycle_thread` in Cycle/Round, `delete_invalid_file` in Cycle/Invalid. It uses Voice, Dirs and Conf/DayDirs.
--   * Server: src/file_server.c. `cmd_parser`, `check_voice_file`, `get_fax_pic_info` and
--     `file_tx_thread` (`serve`); a round of `file_server_thread` in Server/Accept. It uses `mix`, `encrypt_voice` and `get_file_struct` of Voice.
--   * Worker: src/vpu_worker.c. The threads as a step relation over Fifo and Voice: `io_step` is a round of
--     `vpu_io_thread`, `fetch_step` and `handle` are the two halves of a round of `vpu_worker_thread`.
--     Worker/Inv is what a ring and its worker keep, Worker/Runs follows all orders of steps, Worker/Own
--     says which slots a worker writes to, Worker/Device adds the capture device to `io_step`.
--   * Conf: src/conf.c. Each function under its own name: single values in Conf, the CDR receiver in
--     Conf/Addresses, the fax machines in Conf/FaxTable, the file server in Conf/ServerAddr, the voice
--     directories in Conf/DirTable (it uses Dirs), the directories of a day in Conf/DayDirs, the command
--     line in Conf/Param, whole files in Conf/Load. The variables of conf.c are one record, `Globals`.
--   * Fax: `init_connect` and `fax_pre` of src/fax_decode.c. The machines, their reload and the sending loop
--     in Fax, a round in Fax/Rounds. It uses Queue, Cdr and the `Globals` of Conf.
--   * Tones: the rest of src/fax_decode.c, which decodes a recording. Constants, table and state in Tones,
--     `decode_20digit_msg` in Tones/Ident, `check_rx_dcs` in Tones/Dcs, `hdlc_accept` in Tones/Frames, the
--     callbacks of the modems in Tones/Signals, `decode_alaw` and `decode_mem` in Tones/Recording, the file in
--     Tones/Wave. SpanDSP is a parameter. Fax/Rounds takes the results of
--     `decode_mem` as inputs, Fax/Decoding joins the two.
--   * Start: src/vpu.c. The indices of the fax threads, SIGINT, `svm_signal_flags` and the joins of `main`.
--   * Agent: src/conn_serv.c and `change_fax_status` of src/conf.c. The packets and `ma_cmd_reload` in Agent, the
--     loop and the switch of `ma_cmd_parser` in Agent/Dispatch, `ma_cmd_get_counter` in Agent/Counter,
--     `ma_cmd_software_status` in Agent/Status, a round of `conn_sguard` and of `conn_ma` in Agent/Conns.
--   * Sockets: `connect2cdr`, `connect2sguard`, `connect2ma` and `cconnect`. Other parts take their results.
--   * Counters: src/atomic.h and src/counter.c. The operations once for the three widths. Where another part
--     moves a counter, it adds or subtracts modulo 2 ^ 64.
--   * Common: what they share. Each component has its tests and applications in a file Examples.
--
-- Numbers are natural numbers, with the wrap-around of each C type written out. What the system returns
-- (time, files, sockets, free nodes) is an argument. A function runs as one step where it holds a lock.
--
-- Fuel: `search_dir` has one round for each directory, `fields_loop` one for each byte and one more,
-- `play_loop` one more than the bytes of the up file, `reload_loop` one more than the bytes of memory,
-- `send_loop` one attempt for each machine. `scan` has any fuel, since the loop that it models need not
-- end.
--
-- Some records have fields that no C variable stands for, which only the theorems look at: what an effect
-- list, `given` of Cdr/Conn and the lists of clients of Server/Accept say.
--
-- Not modelled: the formatting of file names, the creation of threads, the log, pcap, SpanDSP and libsndfile
-- (what they answer is an input of Tones), the copies from Suricata and OpenBSD, among them the YAML reader
-- (its trees are arguments of Conf), and the headers of the agent's packets, which lie outside the
-- repository: their size is an argument. Memory is sequentially consistent, and a memcpy is one access.
pub mod Common
pub mod Fifo
pub mod Cdr
pub mod Queue
pub mod Voice
pub mod Dirs
pub mod Counters
pub mod Cycle
pub mod Server
pub mod Tones
pub mod Start
pub mod Agent
pub mod Worker
pub mod Conf
pub mod Sockets
pub mod Fax
