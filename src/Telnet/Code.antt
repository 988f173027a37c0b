-- ===== src/Telnet/Code.antt =====
-- The enumerations Command and Option of src/tfr/telnet.py, as the byte values they stand for.
use tfr.Base.{ℕ}

abbrev pub se : ℕ
se = 240

abbrev pub sb : ℕ
sb = 250

abbrev pub will : ℕ
will = 251

abbrev pub wont : ℕ
wont = 252

-- Command.DO
abbrev pub do_it : ℕ
do_it = 253

abbrev pub dont : ℕ
dont = 254

abbrev pub iac : ℕ
iac = 255

abbrev pub echo : ℕ
echo = 1

abbrev pub suppress_go_ahead : ℕ
suppress_go_ahead = 3

abbrev pub terminal_type : ℕ
terminal_type = 24

abbrev pub naws : ℕ
naws = 31

abbrev pub charset : ℕ
charset = 42
