-- ===== src/Word/Types.antt =====
-- The types and the constants of src/olvm.c. The constants are given as the words that
-- `make_value(TCONST, n)` computes (checked in Word/Tests).
use ol.Common.{ℕ}

abbrev pub tpair : ℕ
tpair = 1

abbrev pub ttuple : ℕ
ttuple = 2

abbrev pub tstring : ℕ
tstring = 3

abbrev pub tsymbol : ℕ
tsymbol = 4

abbrev pub tport : ℕ
tport = 12

abbrev pub tconst : ℕ
tconst = 13

abbrev pub tbytecode : ℕ
tbytecode = 16

abbrev pub tproc : ℕ
tproc = 17

abbrev pub tclos : ℕ
tclos = 18

abbrev pub tbvec : ℕ
tbvec = 19

abbrev pub tff : ℕ
tff = 24

abbrev pub ffright : ℕ
ffright = 1

abbrev pub ffred : ℕ
ffred = 2

abbrev pub tthread : ℕ
tthread = 31

abbrev pub tfixp : ℕ
tfixp = 0

abbrev pub tfixn : ℕ
tfixn = 32

abbrev pub tintp : ℕ
tintp = 40

abbrev pub tintn : ℕ
tintn = 41

abbrev pub trational : ℕ
trational = 42

abbrev pub tcomplex : ℕ
tcomplex = 43

abbrev pub tinexact : ℕ
tinexact = 44

abbrev pub tvptr : ℕ
tvptr = 49

abbrev pub tcallable : ℕ
tcallable = 61

abbrev pub ifalse : ℕ
ifalse = 54

abbrev pub itrue : ℕ
itrue = 310

abbrev pub inull : ℕ
inull = 566

abbrev pub iempty : ℕ
iempty = 822

abbrev pub ieof : ℕ
ieof = 1078

-- the same word as `INULL`
abbrev pub ihalt : ℕ
ihalt = inull

abbrev pub ireturn : ℕ
ireturn = 1590
