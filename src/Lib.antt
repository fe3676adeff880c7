-- ===== src/Lib.antt =====
-- istgt: an iSCSI target. This library models the logical unit of type Storage
-- (src/istgt/istgt_lu_disk.c): what a SCSI command that has reached the unit reads and changes;
-- the queues that hold commands (src/istgt/istgt_queue.c); the text parameters of a connection,
-- their negotiation and the Data-In PDUs (src/istgt/istgt_iscsi.c, istgt_iscsi_param.c); and the
-- session handles of a target and the access to it (src/istgt/istgt_lu.c).
--
-- Parts, and where they are:
-- - Prelude: library names, Boolean tests, lists, C strings (strcmp, strcasecmp, strlwr).
-- - Misc/Bytes: the macros of src/istgt/istgt_misc.h (DGET, DSET, BGET8, BDSET8). A buffer is a
--   function from an offset to a byte; `buf_of` makes one of a list.
-- - Misc/Strings: strsepq of src/istgt/istgt_misc.c, with strtol, strlcpy and the `%d` of printf. An
--   `int` is its word, below 2 ^ 32. Numbers and Tokens have the lemmas.
-- - Disk/Types: ISTGT_LU_DISK, ISTGT_LU_PR_KEY, ISTGT_LU_TASK, ISTGT_LU_CMD and CONN as records of
--   the fields that the modelled functions use. A handler returns a `Reply`: the unit, the command
--   with its status and sense data, and the `int`, in which `fail` is -1 and `fault` is a read
--   through a NULL pointer.
-- - Disk/Sense: istgt_lu_scsi_build_sense_data and its deferred twin.
-- - Disk/Tasks: istgt_lu_disk_queue_clear_internal and istgt_lu_disk_queue_abort_ITL. The queue is
--   the list of its tasks. What <pthread.h> answers is an argument, `Pthread`.
-- - Disk/Io: block I/O (istgt_lu_disk_lbread, lbwrite, lbwrite_same, lbwrite_ats, lbsync) over a
--   back end, the record of the function pointers `pread`, `pwrite` and `sync`, with the laws that
--   are documented of pread(2) and pwrite(2). The loop of WRITE SAME has as many rounds as blocks
--   are left, which is enough since each writes one or more.
-- - Disk/Pr: persistent reservations. Keys (find, remove, remove_other), Params, Register (with
--   TransportId), Reserve (RESERVE, RELEASE, CLEAR), Preempt and Out make up
--   istgt_lu_disk_scsi_persistent_reserve_out, split at its `case` labels and `goto` targets; In
--   is istgt_lu_disk_scsi_persistent_reserve_in; Check is istgt_lu_disk_check_pr; Legacy is
--   istgt_lu_disk_scsi_reserve and istgt_lu_disk_scsi_release. Valid has the invariant.
-- - Disk/Exec: istgt_lu_disk_execute, which ties these parts together. Exec has the state and the
--   steps that its cases share; Blocks, Info, Select (MODE SELECT), Groups (target port groups)
--   and Reservation have the cases, Opcode the codes, Execute the `switch` and what stands before
--   it, and Lun istgt_lu_islun2lun and istgt_lu_lun2islun (src/istgt/istgt_lu.c). Effects, Medium,
--   Moves and Sound say what a command leaves as it was, Guarded, Pending, Boundary, Pages and
--   Units what it does in particular cases.
-- - Queue: src/istgt/istgt_queue.c on a heap, a function from an address to a node. An access to
--   NULL or to memory that is not allocated ends the run. Chain and State say what a queue is;
--   Splice, Insert, Calls, Refine, Remove and History relate the calls to those on a list; Destroy
--   is about istgt_queue_destroy, whose loop has a number of rounds as its fuel. The number of
--   elements is taken to fit an `int`.
-- - Iscsi: Param is the list of parameters (istgt_iscsi_param_find, del, add, set), Text the
--   segments of `KEY=VAL` (istgt_iscsi_parse_params, istgt_iscsi_append_text), Conn the fields of
--   CONN and SESS that are used, with istgt_iscsi_copy_param2var and istgt_iscsi_check_values, and
--   Conn/Tables the parameter tables. Value is the `switch` of istgt_iscsi_negotiate_params over
--   the types of parameters, Negotiate the loop around it; its children have the invariant.
--   DataIn is istgt_iscsi_transfer_in_internal, its `int`s as words. The loop over a text and those
--   over lists of values have as many rounds as characters, that over segments as many as bytes,
--   which is enough since each round takes one or more, unless the offset overflows; `%d` has ten digits, as many as an `int` needs.
-- - Lu: Tsih is istgt_lu_allocate_tsih and istgt_lu_free_tsih, on the list of the slots from 1 on;
--   Access is istgt_lu_access, istgt_lu_visible and istgt_pg_visible with the netmasks, where
--   inet_pton is an argument; SendTargets is istgt_lu_sendtargets, in which a negative length given
--   to snprintf counts as writing behind the buffer. Lines says what is due, Room and Overrun what
--   comes of it in a buffer that is large enough or too small.
--
-- The array `pr_keys` with its count is the list of its used entries, bounded by 256
-- (MAX_LU_RESERVE). The loop over TransportIDs recurs on the ports that still fit, so it needs no
-- fuel. Numbers are naturals; where C wraps (`pr_generation`, the keys, `int` lengths) the wrap is
-- written out. The lists of pages and of descriptors have as many rounds as bytes, which is enough
-- since each takes two or more. Port names of a connection are in lower case once a login has set
-- them, which some theorems take as a hypothesis.
--
-- Not modelled: mutexes (each function runs alone), memory allocation, trace output, the MD5 digest
-- and the CRC32C of a name (arguments of Disk/Pr/Legacy), the responses of INQUIRY and MODE SENSE
-- (arguments of Disk/Exec), the threads that take commands off the queue, the handlers of login,
-- text, SCSI and task PDUs with CHAP and R2T, the configuration, the sockets and the start-up of
-- the daemon. The session is that of one connection: others that share it do not change its
-- parameters meanwhile.
pub mod Disk
pub mod Iscsi
pub mod Lu
pub mod Misc
pub mod Prelude
pub mod Queue
