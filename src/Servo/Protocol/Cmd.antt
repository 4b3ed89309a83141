-- ===== src/Servo/Protocol/Cmd.antt =====
-- The enumeration `Cmd` of packages/rfmesh-servo/src/rfmesh_servo/protocol.py.
use rfmesh_workspace.Base.{ℕ}

pub data Cmd : Type 0 where
  move pos_query pos_reply stop cal_set cal_query cal_reply cal_persist ping pong reset ack error :
      Cmd

-- The value of each member.
unfoldable pub cmd_byte : Cmd → ℕ
cmd_byte move = 0x01
cmd_byte pos_query = 0x02
cmd_byte pos_reply = 0x03
cmd_byte stop = 0x04
cmd_byte cal_set = 0x05
cmd_byte cal_query = 0x06
cmd_byte cal_reply = 0x07
cmd_byte cal_persist = 0x08
cmd_byte ping = 0x10
cmd_byte pong = 0x11
cmd_byte reset = 0x20
cmd_byte ack = 0xf0
cmd_byte error = 0xff
