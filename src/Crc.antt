-- ===== src/Crc.antt =====
-- crc.c: the three lookup tables and the four checksums of the serial protocols.
-- A buffer is the list of the bytes that the pointer may read; a read past its end is `none`.
pub mod Lfsr
pub mod Linear
pub mod Bytewise
pub mod Forward
pub mod Reflected
pub mod Digits
pub mod Five
pub mod FiveRun
mod Tests
use cgminer.Base.{
  ℕ, zero, suc, ◌+◌, ◌-◌, ◌≡◌, Option, none, some, List, [], ◌∷◌, bit_and, bit_xor, ◌==◌,
  if◌then◌else◌, get_or, u8, u16, ◌<<◌, ◌>>>◌,
}
use mathlib.Core.Option

pub crc16_table : List ℕ
crc16_table =
    0x0000 ∷ 0x1021 ∷ 0x2042 ∷ 0x3063 ∷ 0x4084 ∷ 0x50a5 ∷ 0x60c6 ∷ 0x70e7 ∷ 0x8108 ∷ 0x9129 ∷ 0xa14a
    ∷ 0xb16b ∷ 0xc18c ∷ 0xd1ad ∷ 0xe1ce ∷ 0xf1ef ∷ 0x1231 ∷ 0x0210 ∷ 0x3273 ∷ 0x2252 ∷ 0x52b5
    ∷ 0x4294 ∷ 0x72f7 ∷ 0x62d6 ∷ 0x9339 ∷ 0x8318 ∷ 0xb37b ∷ 0xa35a ∷ 0xd3bd ∷ 0xc39c ∷ 0xf3ff
    ∷ 0xe3de ∷ 0x2462 ∷ 0x3443 ∷ 0x0420 ∷ 0x1401 ∷ 0x64e6 ∷ 0x74c7 ∷ 0x44a4 ∷ 0x5485 ∷ 0xa56a
    ∷ 0xb54b ∷ 0x8528 ∷ 0x9509 ∷ 0xe5ee ∷ 0xf5cf ∷ 0xc5ac ∷ 0xd58d ∷ 0x3653 ∷ 0x2672 ∷ 0x1611
    ∷ 0x0630 ∷ 0x76d7 ∷ 0x66f6 ∷ 0x5695 ∷ 0x46b4 ∷ 0xb75b ∷ 0xa77a ∷ 0x9719 ∷ 0x8738 ∷ 0xf7df
    ∷ 0xe7fe ∷ 0xd79d ∷ 0xc7bc ∷ 0x48c4 ∷ 0x58e5 ∷ 0x6886 ∷ 0x78a7 ∷ 0x0840 ∷ 0x1861 ∷ 0x2802
    ∷ 0x3823 ∷ 0xc9cc ∷ 0xd9ed ∷ 0xe98e ∷ 0xf9af ∷ 0x8948 ∷ 0x9969 ∷ 0xa90a ∷ 0xb92b ∷ 0x5af5
    ∷ 0x4ad4 ∷ 0x7ab7 ∷ 0x6a96 ∷ 0x1a71 ∷ 0x0a50 ∷ 0x3a33 ∷ 0x2a12 ∷ 0xdbfd ∷ 0xcbdc ∷ 0xfbbf
    ∷ 0xeb9e ∷ 0x9b79 ∷ 0x8b58 ∷ 0xbb3b ∷ 0xab1a ∷ 0x6ca6 ∷ 0x7c87 ∷ 0x4ce4 ∷ 0x5cc5 ∷ 0x2c22
    ∷ 0x3c03 ∷ 0x0c60 ∷ 0x1c41 ∷ 0xedae ∷ 0xfd8f ∷ 0xcdec ∷ 0xddcd ∷ 0xad2a ∷ 0xbd0b ∷ 0x8d68
    ∷ 0x9d49 ∷ 0x7e97 ∷ 0x6eb6 ∷ 0x5ed5 ∷ 0x4ef4 ∷ 0x3e13 ∷ 0x2e32 ∷ 0x1e51 ∷ 0x0e70 ∷ 0xff9f
    ∷ 0xefbe ∷ 0xdfdd ∷ 0xcffc ∷ 0xbf1b ∷ 0xaf3a ∷ 0x9f59 ∷ 0x8f78 ∷ 0x9188 ∷ 0x81a9 ∷ 0xb1ca
    ∷ 0xa1eb ∷ 0xd10c ∷ 0xc12d ∷ 0xf14e ∷ 0xe16f ∷ 0x1080 ∷ 0x00a1 ∷ 0x30c2 ∷ 0x20e3 ∷ 0x5004
    ∷ 0x4025 ∷ 0x7046 ∷ 0x6067 ∷ 0x83b9 ∷ 0x9398 ∷ 0xa3fb ∷ 0xb3da ∷ 0xc33d ∷ 0xd31c ∷ 0xe37f
    ∷ 0xf35e ∷ 0x02b1 ∷ 0x1290 ∷ 0x22f3 ∷ 0x32d2 ∷ 0x4235 ∷ 0x5214 ∷ 0x6277 ∷ 0x7256 ∷ 0xb5ea
    ∷ 0xa5cb ∷ 0x95a8 ∷ 0x8589 ∷ 0xf56e ∷ 0xe54f ∷ 0xd52c ∷ 0xc50d ∷ 0x34e2 ∷ 0x24c3 ∷ 0x14a0
    ∷ 0x0481 ∷ 0x7466 ∷ 0x6447 ∷ 0x5424 ∷ 0x4405 ∷ 0xa7db ∷ 0xb7fa ∷ 0x8799 ∷ 0x97b8 ∷ 0xe75f
    ∷ 0xf77e ∷ 0xc71d ∷ 0xd73c ∷ 0x26d3 ∷ 0x36f2 ∷ 0x0691 ∷ 0x16b0 ∷ 0x6657 ∷ 0x7676 ∷ 0x4615
    ∷ 0x5634 ∷ 0xd94c ∷ 0xc96d ∷ 0xf90e ∷ 0xe92f ∷ 0x99c8 ∷ 0x89e9 ∷ 0xb98a ∷ 0xa9ab ∷ 0x5844
    ∷ 0x4865 ∷ 0x7806 ∷ 0x6827 ∷ 0x18c0 ∷ 0x08e1 ∷ 0x3882 ∷ 0x28a3 ∷ 0xcb7d ∷ 0xdb5c ∷ 0xeb3f
    ∷ 0xfb1e ∷ 0x8bf9 ∷ 0x9bd8 ∷ 0xabbb ∷ 0xbb9a ∷ 0x4a75 ∷ 0x5a54 ∷ 0x6a37 ∷ 0x7a16 ∷ 0x0af1
    ∷ 0x1ad0 ∷ 0x2ab3 ∷ 0x3a92 ∷ 0xfd2e ∷ 0xed0f ∷ 0xdd6c ∷ 0xcd4d ∷ 0xbdaa ∷ 0xad8b ∷ 0x9de8
    ∷ 0x8dc9 ∷ 0x7c26 ∷ 0x6c07 ∷ 0x5c64 ∷ 0x4c45 ∷ 0x3ca2 ∷ 0x2c83 ∷ 0x1ce0 ∷ 0x0cc1 ∷ 0xef1f
    ∷ 0xff3e ∷ 0xcf5d ∷ 0xdf7c ∷ 0xaf9b ∷ 0xbfba ∷ 0x8fd9 ∷ 0x9ff8 ∷ 0x6e17 ∷ 0x7e36 ∷ 0x4e55
    ∷ 0x5e74 ∷ 0x2e93 ∷ 0x3eb2 ∷ 0x0ed1 ∷ 0x1ef0 ∷ []

pub crc16_modbus_table : List ℕ
crc16_modbus_table =
    0x0000 ∷ 0xc0c1 ∷ 0xc181 ∷ 0x0140 ∷ 0xc301 ∷ 0x03c0 ∷ 0x0280 ∷ 0xc241 ∷ 0xc601 ∷ 0x06c0 ∷ 0x0780
    ∷ 0xc741 ∷ 0x0500 ∷ 0xc5c1 ∷ 0xc481 ∷ 0x0440 ∷ 0xcc01 ∷ 0x0cc0 ∷ 0x0d80 ∷ 0xcd41 ∷ 0x0f00
    ∷ 0xcfc1 ∷ 0xce81 ∷ 0x0e40 ∷ 0x0a00 ∷ 0xcac1 ∷ 0xcb81 ∷ 0x0b40 ∷ 0xc901 ∷ 0x09c0 ∷ 0x0880
    ∷ 0xc841 ∷ 0xd801 ∷ 0x18c0 ∷ 0x1980 ∷ 0xd941 ∷ 0x1b00 ∷ 0xdbc1 ∷ 0xda81 ∷ 0x1a40 ∷ 0x1e00
    ∷ 0xdec1 ∷ 0xdf81 ∷ 0x1f40 ∷ 0xdd01 ∷ 0x1dc0 ∷ 0x1c80 ∷ 0xdc41 ∷ 0x1400 ∷ 0xd4c1 ∷ 0xd581
    ∷ 0x1540 ∷ 0xd701 ∷ 0x17c0 ∷ 0x1680 ∷ 0xd641 ∷ 0xd201 ∷ 0x12c0 ∷ 0x1380 ∷ 0xd341 ∷ 0x1100
    ∷ 0xd1c1 ∷ 0xd081 ∷ 0x1040 ∷ 0xf001 ∷ 0x30c0 ∷ 0x3180 ∷ 0xf141 ∷ 0x3300 ∷ 0xf3c1 ∷ 0xf281
    ∷ 0x3240 ∷ 0x3600 ∷ 0xf6c1 ∷ 0xf781 ∷ 0x3740 ∷ 0xf501 ∷ 0x35c0 ∷ 0x3480 ∷ 0xf441 ∷ 0x3c00
    ∷ 0xfcc1 ∷ 0xfd81 ∷ 0x3d40 ∷ 0xff01 ∷ 0x3fc0 ∷ 0x3e80 ∷ 0xfe41 ∷ 0xfa01 ∷ 0x3ac0 ∷ 0x3b80
    ∷ 0xfb41 ∷ 0x3900 ∷ 0xf9c1 ∷ 0xf881 ∷ 0x3840 ∷ 0x2800 ∷ 0xe8c1 ∷ 0xe981 ∷ 0x2940 ∷ 0xeb01
    ∷ 0x2bc0 ∷ 0x2a80 ∷ 0xea41 ∷ 0xee01 ∷ 0x2ec0 ∷ 0x2f80 ∷ 0xef41 ∷ 0x2d00 ∷ 0xedc1 ∷ 0xec81
    ∷ 0x2c40 ∷ 0xe401 ∷ 0x24c0 ∷ 0x2580 ∷ 0xe541 ∷ 0x2700 ∷ 0xe7c1 ∷ 0xe681 ∷ 0x2640 ∷ 0x2200
    ∷ 0xe2c1 ∷ 0xe381 ∷ 0x2340 ∷ 0xe101 ∷ 0x21c0 ∷ 0x2080 ∷ 0xe041 ∷ 0xa001 ∷ 0x60c0 ∷ 0x6180
    ∷ 0xa141 ∷ 0x6300 ∷ 0xa3c1 ∷ 0xa281 ∷ 0x6240 ∷ 0x6600 ∷ 0xa6c1 ∷ 0xa781 ∷ 0x6740 ∷ 0xa501
    ∷ 0x65c0 ∷ 0x6480 ∷ 0xa441 ∷ 0x6c00 ∷ 0xacc1 ∷ 0xad81 ∷ 0x6d40 ∷ 0xaf01 ∷ 0x6fc0 ∷ 0x6e80
    ∷ 0xae41 ∷ 0xaa01 ∷ 0x6ac0 ∷ 0x6b80 ∷ 0xab41 ∷ 0x6900 ∷ 0xa9c1 ∷ 0xa881 ∷ 0x6840 ∷ 0x7800
    ∷ 0xb8c1 ∷ 0xb981 ∷ 0x7940 ∷ 0xbb01 ∷ 0x7bc0 ∷ 0x7a80 ∷ 0xba41 ∷ 0xbe01 ∷ 0x7ec0 ∷ 0x7f80
    ∷ 0xbf41 ∷ 0x7d00 ∷ 0xbdc1 ∷ 0xbc81 ∷ 0x7c40 ∷ 0xb401 ∷ 0x74c0 ∷ 0x7580 ∷ 0xb541 ∷ 0x7700
    ∷ 0xb7c1 ∷ 0xb681 ∷ 0x7640 ∷ 0x7200 ∷ 0xb2c1 ∷ 0xb381 ∷ 0x7340 ∷ 0xb101 ∷ 0x71c0 ∷ 0x7080
    ∷ 0xb041 ∷ 0x5000 ∷ 0x90c1 ∷ 0x9181 ∷ 0x5140 ∷ 0x9301 ∷ 0x53c0 ∷ 0x5280 ∷ 0x9241 ∷ 0x9601
    ∷ 0x56c0 ∷ 0x5780 ∷ 0x9741 ∷ 0x5500 ∷ 0x95c1 ∷ 0x9481 ∷ 0x5440 ∷ 0x9c01 ∷ 0x5cc0 ∷ 0x5d80
    ∷ 0x9d41 ∷ 0x5f00 ∷ 0x9fc1 ∷ 0x9e81 ∷ 0x5e40 ∷ 0x5a00 ∷ 0x9ac1 ∷ 0x9b81 ∷ 0x5b40 ∷ 0x9901
    ∷ 0x59c0 ∷ 0x5880 ∷ 0x9841 ∷ 0x8801 ∷ 0x48c0 ∷ 0x4980 ∷ 0x8941 ∷ 0x4b00 ∷ 0x8bc1 ∷ 0x8a81
    ∷ 0x4a40 ∷ 0x4e00 ∷ 0x8ec1 ∷ 0x8f81 ∷ 0x4f40 ∷ 0x8d01 ∷ 0x4dc0 ∷ 0x4c80 ∷ 0x8c41 ∷ 0x4400
    ∷ 0x84c1 ∷ 0x8581 ∷ 0x4540 ∷ 0x8701 ∷ 0x47c0 ∷ 0x4680 ∷ 0x8641 ∷ 0x8201 ∷ 0x42c0 ∷ 0x4380
    ∷ 0x8341 ∷ 0x4100 ∷ 0x81c1 ∷ 0x8081 ∷ 0x4040 ∷ []

pub crc5_lookup : List ℕ
crc5_lookup =
    0x00 ∷ 0x28 ∷ 0x50 ∷ 0x78 ∷ 0xa0 ∷ 0x88 ∷ 0xf0 ∷ 0xd8 ∷ 0x68 ∷ 0x40 ∷ 0x38 ∷ 0x10 ∷ 0xc8 ∷ 0xe0
    ∷ 0x98 ∷ 0xb0 ∷ 0xd0 ∷ 0xf8 ∷ 0x80 ∷ 0xa8 ∷ 0x70 ∷ 0x58 ∷ 0x20 ∷ 0x08 ∷ 0xb8 ∷ 0x90 ∷ 0xe8
    ∷ 0xc0 ∷ 0x18 ∷ 0x30 ∷ 0x48 ∷ 0x60 ∷ 0x88 ∷ 0xa0 ∷ 0xd8 ∷ 0xf0 ∷ 0x28 ∷ 0x00 ∷ 0x78 ∷ 0x50
    ∷ 0xe0 ∷ 0xc8 ∷ 0xb0 ∷ 0x98 ∷ 0x40 ∷ 0x68 ∷ 0x10 ∷ 0x38 ∷ 0x58 ∷ 0x70 ∷ 0x08 ∷ 0x20 ∷ 0xf8
    ∷ 0xd0 ∷ 0xa8 ∷ 0x80 ∷ 0x30 ∷ 0x18 ∷ 0x60 ∷ 0x48 ∷ 0x90 ∷ 0xb8 ∷ 0xc0 ∷ 0xe8 ∷ 0x38 ∷ 0x10
    ∷ 0x68 ∷ 0x40 ∷ 0x98 ∷ 0xb0 ∷ 0xc8 ∷ 0xe0 ∷ 0x50 ∷ 0x78 ∷ 0x00 ∷ 0x28 ∷ 0xf0 ∷ 0xd8 ∷ 0xa0
    ∷ 0x88 ∷ 0xe8 ∷ 0xc0 ∷ 0xb8 ∷ 0x90 ∷ 0x48 ∷ 0x60 ∷ 0x18 ∷ 0x30 ∷ 0x80 ∷ 0xa8 ∷ 0xd0 ∷ 0xf8
    ∷ 0x20 ∷ 0x08 ∷ 0x70 ∷ 0x58 ∷ 0xb0 ∷ 0x98 ∷ 0xe0 ∷ 0xc8 ∷ 0x10 ∷ 0x38 ∷ 0x40 ∷ 0x68 ∷ 0xd8
    ∷ 0xf0 ∷ 0x88 ∷ 0xa0 ∷ 0x78 ∷ 0x50 ∷ 0x28 ∷ 0x00 ∷ 0x60 ∷ 0x48 ∷ 0x30 ∷ 0x18 ∷ 0xc0 ∷ 0xe8
    ∷ 0x90 ∷ 0xb8 ∷ 0x08 ∷ 0x20 ∷ 0x58 ∷ 0x70 ∷ 0xa8 ∷ 0x80 ∷ 0xf8 ∷ 0xd0 ∷ 0x70 ∷ 0x58 ∷ 0x20
    ∷ 0x08 ∷ 0xd0 ∷ 0xf8 ∷ 0x80 ∷ 0xa8 ∷ 0x18 ∷ 0x30 ∷ 0x48 ∷ 0x60 ∷ 0xb8 ∷ 0x90 ∷ 0xe8 ∷ 0xc0
    ∷ 0xa0 ∷ 0x88 ∷ 0xf0 ∷ 0xd8 ∷ 0x00 ∷ 0x28 ∷ 0x50 ∷ 0x78 ∷ 0xc8 ∷ 0xe0 ∷ 0x98 ∷ 0xb0 ∷ 0x68
    ∷ 0x40 ∷ 0x38 ∷ 0x10 ∷ 0xf8 ∷ 0xd0 ∷ 0xa8 ∷ 0x80 ∷ 0x58 ∷ 0x70 ∷ 0x08 ∷ 0x20 ∷ 0x90 ∷ 0xb8
    ∷ 0xc0 ∷ 0xe8 ∷ 0x30 ∷ 0x18 ∷ 0x60 ∷ 0x48 ∷ 0x28 ∷ 0x00 ∷ 0x78 ∷ 0x50 ∷ 0x88 ∷ 0xa0 ∷ 0xd8
    ∷ 0xf0 ∷ 0x40 ∷ 0x68 ∷ 0x10 ∷ 0x38 ∷ 0xe0 ∷ 0xc8 ∷ 0xb0 ∷ 0x98 ∷ 0x48 ∷ 0x60 ∷ 0x18 ∷ 0x30
    ∷ 0xe8 ∷ 0xc0 ∷ 0xb8 ∷ 0x90 ∷ 0x20 ∷ 0x08 ∷ 0x70 ∷ 0x58 ∷ 0x80 ∷ 0xa8 ∷ 0xd0 ∷ 0xf8 ∷ 0x98
    ∷ 0xb0 ∷ 0xc8 ∷ 0xe0 ∷ 0x38 ∷ 0x10 ∷ 0x68 ∷ 0x40 ∷ 0xf0 ∷ 0xd8 ∷ 0xa0 ∷ 0x88 ∷ 0x50 ∷ 0x78
    ∷ 0x00 ∷ 0x28 ∷ 0xc0 ∷ 0xe8 ∷ 0x90 ∷ 0xb8 ∷ 0x60 ∷ 0x48 ∷ 0x30 ∷ 0x18 ∷ 0xa8 ∷ 0x80 ∷ 0xf8
    ∷ 0xd0 ∷ 0x08 ∷ 0x20 ∷ 0x58 ∷ 0x70 ∷ 0x10 ∷ 0x38 ∷ 0x40 ∷ 0x68 ∷ 0xb0 ∷ 0x98 ∷ 0xe0 ∷ 0xc8
    ∷ 0x78 ∷ 0x50 ∷ 0x28 ∷ 0x00 ∷ 0xd8 ∷ 0xf0 ∷ 0x88 ∷ 0xa0 ∷ []

-- One round of `crc16` and `crc16_itu`.
pub crc16_update : ℕ → ℕ → ℕ
crc16_update crc b =
    u16 (bit_xor (get_or crc16_table (bit_and (bit_xor (crc >>> 8) b) 0xff) 0) (crc << 8))

pub crc16_loop : ℕ → List ℕ → ℕ → Option ℕ
crc16_loop zero ptr crc = some crc
crc16_loop (suc len) [] crc = none
crc16_loop (suc len) (b ∷ ptr) crc = crc16_loop len ptr (crc16_update crc b)

pub crc16 : List ℕ → ℕ → Option ℕ
unfolding crc16_loop crc16_update
crc16 ptr len = crc16_loop len ptr 0

pub crc16_itu : ℕ → List ℕ → ℕ → Option ℕ
unfolding crc16_loop crc16_update
crc16_itu crc ptr len = crc16_loop len ptr crc

-- One round of `crc16_modbus`.
pub modbus_update : ℕ → ℕ → ℕ
modbus_update crc b =
    bit_xor (crc >>> 8) (get_or crc16_modbus_table (bit_and (bit_xor b crc) 0xff) 0)

pub modbus_loop : ℕ → List ℕ → ℕ → Option ℕ
modbus_loop zero ptr crc = some crc
modbus_loop (suc len) [] crc = none
modbus_loop (suc len) (b ∷ ptr) crc = modbus_loop len ptr (modbus_update crc b)

pub crc16_modbus : List ℕ → ℕ → Option ℕ
unfolding modbus_loop modbus_update
crc16_modbus ptr len = modbus_loop len ptr 0xffff

-- The round of `crc5` over a whole byte, and its last step over the first `bits` digits of one.
pub crc5_update : ℕ → ℕ → ℕ
crc5_update crc b = get_or crc5_lookup (bit_xor crc b) 0

pub crc5_tail : ℕ → ℕ → ℕ → ℕ
crc5_tail crc b bits =
    u8 (bit_xor (crc << bits) (get_or crc5_lookup (bit_xor crc b >>> (8 - bits)) 0))

-- With the whole bytes done, what is left of the count is `bits & 7`.
pub crc5_rest : ℕ → List ℕ → ℕ → Option ℕ
unfolding crc5_tail
crc5_rest zero ptr crc = some crc
crc5_rest (suc bits) [] crc = none
crc5_rest (suc bits) (b ∷ ptr) crc = some (crc5_tail crc b (suc bits))

pub crc5_loop : ℕ → ℕ → List ℕ → ℕ → Option ℕ
unfolding crc5_update crc5_rest
crc5_loop zero bits ptr crc = crc5_rest bits ptr crc
crc5_loop (suc bytes) bits [] crc = none
crc5_loop (suc bytes) bits (b ∷ ptr) crc = crc5_loop bytes bits ptr (crc5_update crc b)

pub crc5 : List ℕ → ℕ → Option ℕ
unfolding crc5_loop
crc5 ptr bits = Option.map (λ crc. crc >>> 3) (crc5_loop (bits >>> 3) (bit_and bits 7) ptr 0xf8)
