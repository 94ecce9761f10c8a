-- ===== src/Pic/Flash.antt =====
-- The requests to the controller's flash memory, which name no board.
use cgminer.Base.{ℕ, ◌+◌, ◌≤◌, ◌≡◌, arith, some, List, length, take, length-take, le→leb, ◌>>=◌, u8}
use cgminer.Pic.{Pic, pic_send_data_to_pic}
use cgminer.Pic.Frame.{sent, transmit-sent}

-- If the packet has 256 bytes of data, sending no more than 252 bytes, which are there, succeeds: the packet of
-- these bytes is written, and the state is otherwise as the packet left it.
pub pic_send_data_to_pic-sent :
    (pic : Pic) (bytes : List ℕ) (d_len : ℕ)
    → length pic.packet_data ≡ 256
    → d_len ≤ length bytes
    → d_len ≤ 252
    → pic_send_data_to_pic pic bytes d_len ≡ some (sent pic 0x02 (take d_len bytes))
unfolding pic_send_data_to_pic
pic_send_data_to_pic-sent pic bytes d_len size there short =
    let count : length (take d_len bytes) ≡ d_len = omega (arith, length-take d_len bytes) in
    let byte : u8 (d_len + 3) ≡ length (take d_len bytes) + 3 = omega arith in
    rw (le→leb d_len (length bytes) there, byte)
      (transmit-sent pic 0x02 (take d_len bytes) (omega arith) (omega arith) size)
