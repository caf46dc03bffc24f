-- ===== src/Lib.antt =====
-- nabud, a server for the NABU PC, which emulates the NABU Adaptor on a serial line or a socket.
--
-- The program. A connection (libnabud/conn_io.c, nabud/conn.c) runs the event loop of the adaptor
-- (nabud/adaptor.c), which answers the classic messages of a NABU itself and hands others to
-- RetroNet and NHACP. The adaptor loads images of the selected channel (nabud/image.c), cuts them
-- into segments, and sends each as a packet with a header and a CRC (libnabud/nabu_proto.h,
-- libnabud/crc16_genibus.c). NHACP frames carry a CRC-8 (libnabud/crc8_cdma2000.c).
--
-- The files, each with its children:
-- - Prelude: shared names, Boolean tests, lists, bits, state with faults, measures of the state.
-- - Crc8, Crc16: the two CRCs with the tables of the source, `update` over a list of bytes.
-- - Proto: integers in buffers, the packet header and the packet's CRC field. A setter is the list
--   of bytes that it writes.
-- - ConnIo: `conn_io_send`, `conn_io_recv` and what they call. The system is a script of rounds in
--   the state: each poll(2) with its read(2) or write(2) is an event of the script. `sent` is what
--   the peer has been given.
-- - Channel: `image_source`, `image_channel`, the selection of a connection. The fields of a channel
--   for its listing and its cache are left out, since nothing that is modelled reads them. The
--   tables that `image_add_channel` works on keep account of channels that have been freed.
-- - Adaptor: all functions of nabud/adaptor.c, by their names. What it calls of other components is
--   the record `Services`, a parameter. `Adaptor.Layout` has the packet of a segment on the wire, and
--   `Adaptor.Fetch` a client that fetches an image.
-- - Stext: the files that a connection has open, of nabud/stext.c. The bytes of a file are a list; a
--   transfer goes in rounds, given as a script; the number of open system files is counted.
-- - Atom: the atoms of libnabud/atom.c on the wire, and lists of them. `atom_list_recv` takes fuel,
--   like the event loop.
-- - Nhacp: the sessions of a connection and their requests, of nabud/nhacp.c, with the counted
--   strings of libnabud/nhacp_proto.h. The contexts that are allocated stand in one list, each with
--   its address; the request and the reply of a context share a buffer, a function from offsets to
--   bytes. What fileio, the C library and the file system answer is the record `System`.
--   `Nhacp.Service` fills `Services.nhacp_request` of the adaptor with it.
-- - Fileio: the schemes of locations and their resolution below a root, of libnabud/fileio.c. A
--   location is the list of its bytes, without the nul.
-- - Retronet: the requests on files of nabud/retronet.c, by their names; a handler works on an
--   `RnExchange`, and what fileio, glob(3), the C library and the file system answer is the record
--   `RnSystem`. `Retronet.Loop` fills `Services.retronet_request` of the adaptor with it.
--
-- State is passed explicitly: `M S A` is a function from a state to an outcome, which is `done` with
-- a result and a state, `blocked` where a thread waits for an event that never comes, or `fault`
-- where C leaves the behaviour open, as in a use of freed memory, or an assertion fails.
--
-- Bounds. A byte is a number below 256 where a theorem asks for it; words keep their wrap-around
-- written out. `adaptor_event_loop` takes fuel: every round of the loop takes an event from the
-- script, so one more than the length of the script is enough. NHACP-0.0 mode takes fuel likewise,
-- and counts as blocked where it is used up. The loops of FH-DELETE-RANGE, FH-INSERT and FILE-COPY
-- take one more than the size of the file: each of their rounds but the last moves a byte or more.
-- The loops that receive, send, read and write are recursive on the script. The client of
-- `Adaptor.Fetch` may make as many requests as there are segments of 991 bytes in the image, or more.
--
-- Not modelled: logs, threads and mutexes (an access under a mutex is one step), the opening of
-- sockets and ports, image loading and its cache, the cursor of a file of the system, the six
-- handlers of NHACP that need it or list a directory (FILE-READ, FILE-WRITE, FILE-SEEK,
-- FILE-GET-INFO, LIST-DIR and GET-DIR-ENTRY) and four of RetroNet (FILE-DETAILS, FH-DETAILS, FH-READSEQ and
-- FH-SEEK), which are parameters, the rest of fileio (a layer over system calls and libfetch), the
-- control service, listings, the clients, libfetch and libmj.
pub mod Prelude
pub mod Crc8
pub mod Crc16
pub mod Proto
pub mod ConnIo
pub mod Channel
pub mod Adaptor
pub mod Stext
pub mod Atom
pub mod Nhacp
pub mod Fileio
pub mod Retronet
