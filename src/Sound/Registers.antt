-- ===== src/Sound/Registers.antt =====
-- The registers of the sound: src/io/sound/registers.cc. The resampler is told of a new rate there,
-- which changes nothing that the rest of the program reads.
use matar.Base.{ℕ, ◌||◌, ◌==◌, if◌then◌else◌, ◌<<<◌, field, put}
use matar.Sound.{Sound, default_sampling_rate}
use matar.Sound.Fifo as Fifo

unfoldable pub read_halfword : ℕ → Sound → ℕ
read_halfword address s =
    if address == 0x4000060
    then s.ch1_sweep
    else if address == 0x4000062
    then s.ch1_envelope
    else if address == 0x4000064
    then s.ch1_freq_ctrl
    else if address == 0x4000068
    then s.ch2_envelope
    else if address == 0x400006C
    then s.ch2_freq_ctrl
    else if address == 0x4000070
    then s.ch3_wave_select
    else if address == 0x4000072
    then s.ch3_len_vol
    else if address == 0x4000074
    then s.ch3_freq_ctrl
    else if address == 0x4000090
    then s.ch3_wave_pattern 0
    else if address == 0x4000092
    then s.ch3_wave_pattern 1
    else if address == 0x4000094
    then s.ch3_wave_pattern 2
    else if address == 0x4000096
    then s.ch3_wave_pattern 3
    else if address == 0x4000098
    then s.ch3_wave_pattern 4
    else if address == 0x400009A
    then s.ch3_wave_pattern 5
    else if address == 0x400009C
    then s.ch3_wave_pattern 6
    else if address == 0x400009E
    then s.ch3_wave_pattern 7
    else if address == 0x4000078
    then s.ch4_envelope
    else if address == 0x400007C
    then s.ch4_freq_ctrl
    else if address == 0x4000080
    then s.vol_ctrl
    else if address == 0x4000082
    then s.dma_ctrl
    else if address == 0x4000084
    then s.sound_on_off
    else if address == 0x4000088
    then s.sound_bias
    else 0xFFFF

unfoldable pub write_halfword : ℕ → ℕ → Sound → Sound
write_halfword address halfword s =
    if address == 0x4000060
    then record s { ch1_sweep = halfword }
    else if address == 0x4000062
    then record s { ch1_envelope = halfword }
    else if address == 0x4000064
    then record s { ch1_freq_ctrl = halfword }
    else if address == 0x4000068
    then record s { ch2_envelope = halfword }
    else if address == 0x400006C
    then record s { ch2_freq_ctrl = halfword }
    else if address == 0x4000070
    then record s { ch3_wave_select = halfword }
    else if address == 0x4000072
    then record s { ch3_len_vol = halfword }
    else if address == 0x4000074
    then record s { ch3_freq_ctrl = halfword }
    else if address == 0x4000090
    then record s { ch3_wave_pattern = put s.ch3_wave_pattern 0 halfword }
    else if address == 0x4000092
    then record s { ch3_wave_pattern = put s.ch3_wave_pattern 1 halfword }
    else if address == 0x4000094
    then record s { ch3_wave_pattern = put s.ch3_wave_pattern 2 halfword }
    else if address == 0x4000096
    then record s { ch3_wave_pattern = put s.ch3_wave_pattern 3 halfword }
    else if address == 0x4000098
    then record s { ch3_wave_pattern = put s.ch3_wave_pattern 4 halfword }
    else if address == 0x400009A
    then record s { ch3_wave_pattern = put s.ch3_wave_pattern 5 halfword }
    else if address == 0x400009C
    then record s { ch3_wave_pattern = put s.ch3_wave_pattern 6 halfword }
    else if address == 0x400009E
    then record s { ch3_wave_pattern = put s.ch3_wave_pattern 7 halfword }
    else if address == 0x4000078
    then record s { ch4_envelope = halfword }
    else if address == 0x400007C
    then record s { ch4_freq_ctrl = halfword }
    else if address == 0x4000080
    then record s { vol_ctrl = halfword }
    else if address == 0x4000082
    then record s { dma_ctrl = halfword }
    else if address == 0x4000084
    then record s { sound_on_off = halfword }
    else if address == 0x4000088
    then record s {
      sound_bias = halfword;
      sampling_rate = default_sampling_rate <<< field 14 2 halfword;
    }
    else if (address == 0x40000A0) || (address == 0x40000A2)
    then record s { fifo_a = Fifo.write halfword s.fifo_a }
    else if (address == 0x40000A4) || (address == 0x40000A6)
    then record s { fifo_b = Fifo.write halfword s.fifo_b }
    else s
