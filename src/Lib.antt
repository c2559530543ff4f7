-- ===== src/Lib.antt =====
-- The file server of the modpack installer: vsftpd 2.3.5 with the update extension of mcupdate.c.
--
-- The parts, bottom up:
--   Run.antt                 the ways in which the process stops: `bug` and `die` of
--                            vsftpd-2.3.5/utility.c, and an access outside a block
--   Str/Buffer.antt          vsftpd-2.3.5/str.c below its interface: `struct mystr`, allocation and
--                            copying, with the guards of vsftpd-2.3.5/sysutil.c around the C library
--   Str/Text.antt            str.c above it: comparison, search, splitting and substitution
--   Str/Lines.antt           str.c: `str_getline` and `str_contains_line`
--   Str/Cut.antt             str.c: pieces, padding and the functions over each character
--   Sysutil.antt             character classes of sysutil.c
--   Files.antt               vsftpd-2.3.5/filestr.c
--   Mcupdate.antt            vsftpd-2.3.5/mcupdate.c
--   Ascii.antt               vsftpd-2.3.5/ascii.c
--   Hash.antt                vsftpd-2.3.5/hash.c, with each chain as a list; the nodes in memory and
--                            their links in Hash/Links.antt
--   Standalone.antt          the account of sessions in vsftpd-2.3.5/standalone.c, on Hash.antt
--   Strlist.antt             vsftpd-2.3.5/strlist.c
--   Ipaddr.antt              vsftpd-2.3.5/ipaddrparse.c
--   Filter.antt              `vsf_filename_passes_filter` of vsftpd-2.3.5/ls.c, and
--                            vsftpd-2.3.5/access.c
--   Session.antt             vsftpd-2.3.5/session.h, the settings of vsftpd-2.3.5/tunables.h that are
--                            read, and the entries of vsftpd-2.3.5/logging.c
--   Postlogin.antt           vsftpd-2.3.5/postlogin.c, with opts.c, features.c and banner.c beside it: the
--                            choice of a handler in Dispatch, with the entry of the log behind a
--                            command that failed, the data connection in Data and Transfer, the
--                            files in Paths and Files, the modpack commands in Site, which call
--                            Mcupdate.antt, and the rest in Simple
--   Privops.antt             the decision on a login in vsftpd-2.3.5/privops.c; in Privops/Sockets.antt its
--                            other operations
--   Privsock.antt            vsftpd-2.3.5/privsock.c
--   Twoprocess.antt          vsftpd-2.3.5/postprivparent.c, which serves over Privsock.antt what
--                            Privops/Sockets.antt does; in Twoprocess/Child.antt the requests of
--                            vsftpd-2.3.5/twoprocess.c and their like in vsftpd-2.3.5/oneprocess.c
--   Secutil.antt             vsftpd-2.3.5/secutil.c
--   Parseconf.antt           vsftpd-2.3.5/parseconf.c, with its tables in Parseconf/Tables.antt
--   Netstr.antt              vsftpd-2.3.5/netstr.c
--   Ftpcmdio.antt            vsftpd-2.3.5/ftpcmdio.c, which reads its lines by Netstr.antt
--   Prelogin.antt            vsftpd-2.3.5/prelogin.c and the commands of vsftpd-2.3.5/ssl.c, which call
--                            Privops.antt
--
-- Functions keep the names of the source. A string is a `Mystr` with its buffer in Str/Buffer.antt
-- and the list of its bytes everywhere else; the theorems of Str/Buffer/Refine.antt are what joins the
-- two. A result of type `Run` is the value returned or the stop. Loops that the source bounds by a
-- length run on fuel of that length and one more, since each round but the last takes a byte. The
-- filter's fuel is its bound on the rounds and one more.
--
-- A session is a record, and what it does to the world a list of events, the newest first. `Host` is
-- the operating system, the network and the C library: what it answers may depend on all events before.
-- `port_active` and `pasv_active` call each other; the fuel is the depth of the calls, and two is enough
-- where not both are active. The instructions of an earlier `SITE UINS`, which the code keeps in a static
-- string, are an argument. The scope of an IPv6 address is not in the model, and a read behind the end
-- of a string counts as one outside its block.
--
-- The C library's `malloc`, `realloc`, `qsort` and `atoi` and the operating system are parameters. The
-- locale is "C". The key's equality and the hash function are parameters of Hash.antt, and
-- Standalone.antt puts in those of standalone.c. Sockets, signals, forking and the reload at SIGHUP are
-- system calls and not modelled: the result of a fork and the reaped process ids are inputs. Lengths
-- of strings are below INT_MAX, as the allocation functions ensure.
--
-- The nodes of Hash/Links.antt are found by walking their links, with one more of fuel than there are
-- nodes. What happens to a file between `stat` and its reading is not in the model. Strlist.antt takes
-- the strings of a node as they are: the allocation of their copies, which may end the process, is that
-- of Str/Buffer.antt.
--
-- The count of failed logins is not bounded by the width of its type. Postlogin.antt and Prelogin.antt
-- treat what they ask of the parent as an answer of `Host`; Twoprocess.antt is what the answer rests on.
-- A stream between the processes holds what was sent and is not read yet. The privileged process draws a
-- passive port nine times at most, and the line of a command is read in at most as many rounds as its
-- buffer has bytes, with one more of fuel. The settings are read as functions of a setting's name.
--
-- Not modelled: the transfers and listings (RETR, STOR, APPE, STOU, LIST, NLST, STAT) and MDTM, the alarms
-- of the command channel, the greeting and the limits on clients, HTTP, the start of the two processes,
-- what the calls of Secutil.antt do to a process, the defaults of the configuration, OpenSSL and the client.
pub mod Base
pub mod Run
pub mod Sysutil
pub mod Str
pub mod Hash
pub mod Standalone
pub mod Filter
pub mod Strlist
pub mod Postlogin
pub mod Privops
pub mod Privsock
pub mod Twoprocess
pub mod Prelogin
pub mod Session
pub mod Ipaddr
pub mod Ascii
pub mod Files
pub mod Mcupdate
pub mod Netstr
pub mod Secutil
pub mod Parseconf
pub mod Ftpcmdio
