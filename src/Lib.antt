-- ===== src/Lib.antt =====
-- A remote-metering system: how its gateway talks to an electricity meter over HDLC and DLMS/COSEM,
-- and how its backend queues, runs and settles the jobs that the gateway carries out.
--
-- The gateway's sources are below gateway/src/mmws_gateway.
--
-- The parts, from the socket upwards:
-- - Transport: `TcpTransport.recv_exact` of transport.py. A socket is the sequence of what it will
--   deliver, chunks of bytes and timeouts, and then the end of the connection.
-- - Hdlc: protocols/hdlc.py. Crc is `crc16_x25`, Address the address fields and the tail of
--   `server_hdlc_address`, Frame is `HdlcFrame` with its encoder and decoder, and Stream is
--   `read_frame_from_transport`.
-- - DataTypes: protocols/datatypes.py. Date is a `datetime` and the twelve bytes of a cosem-date-time,
--   Encode the encoders, Decode is `decode_value`.
-- - Dlms: protocols/dlms.py. Ber has the lengths, object identifiers and the LLC header, Association
--   AARQ and AARE, Attribute the requests and responses GET, SET and ACTION, Blocks the requests for a
--   range of dates, blocks of a response, and the cutting of a load profile into rows.
-- - HdlcDlms: protocols/hdlc_dlms.py. The file itself receives I-frames, Obis reads OBIS codes,
--   Register reads one register and several, and Exchange has the whole exchanges: SNRM, AARQ with
--   its repetitions, and GET, SET or ACTION.
-- - Addressing: addressing.py, the physical address of a meter, and `int` on texts.
-- - ModeC: protocols/mode_c.py, its messages and the checks of a readout.
-- - Session: session.py, the retries of an operation.
-- - Errors: errors.py, and the result of a call that may raise. Common and Bytes are shared lemmas,
--   numbers, lists, bit operations and Python's `bytes`. Runs, DlmsRuns, RegisterRuns and
--   BackendRuns hold the theorems at concrete inputs.
--
-- The backend is below backend/app, and its model below Backend:
-- - Jobs and Db: the rows of models.py that the operations read or write, and the database as a
--   record of tables, each a list of rows in some order. Tables has the queries and updates. Times
--   are natural numbers of microseconds; numbers of JSON are counted in thousandths.
-- - Calls: what a handler calls. The gateway's answers and the libraries (decryption, time zones,
--   ISO texts) are parameters; a handler is a function that returns a database or raises with one.
-- - Queue: `_claim_next_job` and `claim_due_jobs_for_meter` of services/job_worker.py. Which rows are
--   locked by others is a parameter (SKIP LOCKED), and each claim is one transaction.
-- - Outcomes, Handlers, Writes and Finalizers: the `finalize_*` functions, the `_run_*` handlers, and
--   what closes runs and disconnect batches (also services/disconnect_batches.py). Worker is
--   `_process_one`, with several workers at once in Overlap, and Stale the clean-ups at a start, by
--   age and on a new day.
-- - Billing: `_create_batch` of api/billing.py, for disconnect and reconnect batches.
-- - Report: api/gateway_internal.py. Scheduler and Trigger: services/scheduler.py. Watch: `is_online`,
--   services/offline_detector.py and services/low_consumption.py.
-- - Rewrites says what a handler may do to the table of jobs, the files named Rows and Streams prove
--   it of each, and Consistency carries the invariant of the jobs through all operations.
--
-- Bytes are natural numbers below 256, and texts are lists of code points. Python's `bytes([x])` and
-- `to_bytes` raise in the model where they raise in the code. Receiving is a function on the socket
-- (`Link`); code that also sends is a function on a `Wire`, the socket and the list of what was sent.
-- Fuel: `recv_exact` has one turn for each byte, `decode_value` one level of nesting for each byte of
-- the data, `base128` and the scans of AARQ and AARE one turn for each unit of the number or byte of
-- the body, which each turn makes smaller. `_recv_i_frame`, the retries and the attempts of AARQ count
-- down the limits of the code.
--
-- Not modelled: messages of errors and logging; connecting and closing of sockets, `recv_until`;
-- deadlines of call-home sockets; the float that a register is rounded to, kept as a number and a
-- power of ten; the values of load profile rows; Python's limit on recursion. Of the
-- backend: the other web handlers (users, meters, reports, readings of billing), meter discovery, and
-- the transactions inside one handler, which is one step, and a commit that fails; a handler whose
-- row is written by others while it runs, as the steps of Consistency.Reach say. The frontend, the
-- emulators, the lines of a mode C readout and the profile mode E are not modelled.
pub mod Common
pub mod Errors
pub mod Bytes
pub mod Transport
pub mod Session
pub mod Hdlc
pub mod HdlcDlms
pub mod Addressing
pub mod DataTypes
pub mod Dlms
pub mod ModeC
mod Runs
mod DlmsRuns
mod RegisterRuns
pub mod Backend
mod BackendRuns
