-- ===== src/Io/Errno.antt =====
-- The codes of `Errno` (include/shclog/io/syscall.hpp) that the wrappers name. The type is a
-- `u16`: a code that no enumerator names (41, 134) is a value of it too.
pub mod Enumerators
use shclog.Prelude.{ℕ, ◌^◌, ◌-◌}

abbrev pub Errno : Type 0
Errno = ℕ

abbrev pub success : Errno
success = 0

abbrev pub perm : Errno
perm = 1

abbrev pub noent : Errno
noent = 2

abbrev pub srch : Errno
srch = 3

abbrev pub intr : Errno
intr = 4

abbrev pub nxio : Errno
nxio = 6

abbrev pub toobig : Errno
toobig = 7

abbrev pub badf : Errno
badf = 9

abbrev pub again : Errno
again = 11

abbrev pub nomem : Errno
nomem = 12

abbrev pub acces : Errno
acces = 13

abbrev pub fault : Errno
fault = 14

abbrev pub busy : Errno
busy = 16

abbrev pub exist : Errno
exist = 17

abbrev pub xdev : Errno
xdev = 18

abbrev pub nodev : Errno
nodev = 19

abbrev pub notdir : Errno
notdir = 20

abbrev pub isdir : Errno
isdir = 21

abbrev pub inval : Errno
inval = 22

abbrev pub nfile : Errno
nfile = 23

abbrev pub mfile : Errno
mfile = 24

abbrev pub txtbsy : Errno
txtbsy = 26

abbrev pub fbig : Errno
fbig = 27

abbrev pub nospc : Errno
nospc = 28

abbrev pub spipe : Errno
spipe = 29

abbrev pub rofs : Errno
rofs = 30

abbrev pub pipe : Errno
pipe = 32

abbrev pub range : Errno
range = 34

abbrev pub nametoolong : Errno
nametoolong = 36

abbrev pub loop : Errno
loop = 40

abbrev pub badr : Errno
badr = 53

abbrev pub overflow : Errno
overflow = 75

abbrev pub badfd : Errno
badfd = 77

abbrev pub destaddrreq : Errno
destaddrreq = 89

abbrev pub opnotsupp : Errno
opnotsupp = 95

abbrev pub netdown : Errno
netdown = 100

abbrev pub netunreach : Errno
netunreach = 101

abbrev pub dquot : Errno
dquot = 122

abbrev pub nsrcnameloop : Errno
nsrcnameloop = 177

-- `std::numeric_limits<u16>::max()`
abbrev pub unexpected_errno : Errno
unexpected_errno = 2 ^ 16 - 1
