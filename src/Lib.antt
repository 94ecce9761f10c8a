-- ===== src/Lib.antt =====
-- Verification of parts of cgminer, a miner program in C that takes work from pools over stratum,
-- hands it to mining devices through one driver for each device family, and sends the shares back.
--
-- The program's parts. cgminer.c holds the main program: the pools and the choice among them, the work
-- items and the threads that stage, hash and submit them. util.c has the conversions, the times, the
-- thread queues and the stratum connection. crc.c and sha2.c are used by the drivers and by the work
-- code: a driver frames its packets with a checksum, and a midstate or a share is hashed. klist.c and
-- noncedup.c keep reusable items for the drivers, api.c answers monitoring requests, and the
-- directories driver-* talk to the devices.
--
-- What is modelled, and where.
--  - Crc.antt and below: crc.c, all of it: the tables `crc16_table`, `crc16_modbus_table` and
--    `CRC5_Lookup` as lists, and `crc5`, `crc16`, `crc16_itu` and `crc16_modbus`, whose loops are
--    recursion on the count of bytes (or of bits, for crc5). Crc/Lfsr is the shift register of a
--    polynomial, the description that is independent of the tables.
--  - Sha2.antt and below: sha2.c and sha2.h, all of it: `sha256_ctx` as the record Sha256Ctx,
--    `sha256_transf`, `sha256_init`, `sha256_update`, `sha256_final` and `sha256`. A copy out of the
--    range of a source or destination array is `none`, and so are more than 2^25 blocks in one call,
--    whose offset is no `int`. Sha2/Blocks has the reference digest.
--  - Hex.antt and below: `__bin2hex` (here bin2hex_into), `bin2hex` and `hex2bin` of util.c.
--  - Target.antt and Coinbase.antt and below: `fulltest` and `ser_number` of util.c.
--  - Work.antt and below: `roll_work`, `roll_work_ntime`, `modify_ntime`, `offset_ntime` and
--    `total_work_inc` of cgminer.c, on the hexadecimal strings of Hex.
--  - Pools.antt and below: `pool_unusable`, `select_balanced`, `priority_pool`, `select_pool`,
--    `adjust_quota_gcd`, `enable_pool` and `reject_pool` of cgminer.c, in Pools/Switch
--    `switch_pools`, and in Pools/Removal `remove_pool`. The array `pools` is a list, a pointer to a
--    pool is its index, and the static and global variables are fields of a state record.
--  - Klist.antt and below: klist.c, the operations on the links: `k_alloc_items`, `_k_unlink_head`,
--    `_k_unlink_tail`, `_k_add_head`, `_k_add_tail`, `_k_insert_before`, `_k_insert_after`,
--    `_k_unlink_item` and the two transfers. The memory maps the address of a K_ITEM to its fields,
--    and says how many allocations still succeed: the program ends at one that fails.
--    Klist/Segment and Klist/Ends say which list of addresses a K_LIST holds.
--    Klist/Apart says what an operation on one list leaves of another.
--  - Noncedup.antt and below: noncedup.c: `isdupnonce` and `dupcounters`, on the memory of Klist with
--    the data of the items beside it, and what cgtime gives as a parameter.
--  - Base58.antt and below: `b58tobin`, its table and `address_to_pubkeyhash` of util.c.
--  - Softi2c.antt and below: softi2c/i2c.c: `i2c_start`, `i2c_stop`, `i2c_write_single_byte` and
--    `i2c_read_single_byte` as the list of what is done with the two lines. Softi2c/Listen is a device
--    that sees the levels of the lines only.
--  - Apw17.antt and below: driver-apw17, the packets of the power supply over that bus, its requests
--    and its voltage. Apw11.antt and below: driver-apw11, whose packets go through the kernel's bus.
--  - Pic.antt and below: driver-s19xph/pic.c (and the same code in driver-s21/pic.c), the requests to
--    the controllers of the boards.
--  - S21.antt and below: driver-s21/driver-s21.c: the commands to the chips of a chain, with their
--    checksum from Crc; in S21/Pll the table `freq_pll_1368` and its searches; in S21/Nonce the ring
--    `g_nonce_fifo`, `detect_packet` and `extract_asic_id_from_nonce`. S21/Command has a chip that
--    reads the packets.
--  - Base.antt and below: names of the libraries, tests on numbers, lists by index, words and bits.
--
-- Conventions. Numbers are natural numbers, and every wrap at 8, 16, 32 or 64 bits is written out. A
-- signed int is its 32-bit pattern, compared with the sign in mind. A read or write outside an array
-- is `none`, so that a theorem that a function returns `some` value says that it stays inside. An
-- array that C leaves uninitialised is an argument, any list of its length. Most loops
-- count down to zero, in a list or in a number of rounds. The loops that go on until a value is
-- reached run on fuel, and their theorems show that it is enough: 73 for the voltage of Apw11, which
-- has 73 settings; 108 for the domains of a chain in S21, whose number grows by 9 up to 108; one more
-- than the ring of nonces has places; and one more than the list of nonces counts in isdupnonce. A
-- float voltage or frequency is a number of 2^-20 units, as exact as the floats between the limits
-- are, and the times of noncedup.c are in microseconds. The kernel and the devices are parameters:
-- what a read gives, what a write takes, the level of a line.
--
-- What is not modelled. Locks and threads: the functions above run as one step each, as they do
-- under the control lock or in one thread. Logging has no effect. Creating and freeing lists, the rest
-- of util.c and cgminer.c, the other drivers and buses and the API are outside, and in the drivers
-- that are modelled the threads, the set-up of devices and the pins. What s21_scanwork does with a
-- nonce besides taking it from the ring is a parameter. ccan, uthash.h and elist.h are other projects'
-- libraries.
pub mod Apw11
pub mod Apw17
mod Base
pub mod Base58
pub mod Coinbase
pub mod Crc
pub mod Hex
pub mod Klist
pub mod Noncedup
pub mod Pic
pub mod Pools
pub mod S21
pub mod Sha2
pub mod Softi2c
pub mod Target
pub mod Work
