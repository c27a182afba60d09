-- ===== src/Spec/Access.antt =====
-- The loads and stores: their places in the encoding, and the width of each.
use criscv.Base.{ℕ}
use criscv.Mmio.{AccessWidth, byte, halfword, word}

pub data LoadOp : Type 0 where
  lb lh lw lbu lhu : LoadOp

unfoldable pub load_funct3 : LoadOp → ℕ
load_funct3 lb = 0
load_funct3 lh = 1
load_funct3 lw = 2
load_funct3 lbu = 4
load_funct3 lhu = 5

unfoldable pub load_width : LoadOp → AccessWidth
load_width lb = byte
load_width lh = halfword
load_width lw = word
load_width lbu = byte
load_width lhu = halfword

pub data StoreOp : Type 0 where
  sb sh sw : StoreOp

unfoldable pub store_funct3 : StoreOp → ℕ
store_funct3 sb = 0
store_funct3 sh = 1
store_funct3 sw = 2

unfoldable pub store_width : StoreOp → AccessWidth
store_width sb = byte
store_width sh = halfword
store_width sw = word
