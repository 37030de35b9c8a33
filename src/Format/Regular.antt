-- ===== src/Format/Regular.antt =====
-- The regular formats: `GetFormat` in src/Format.cpp.
use samdisk_plus.Prelude.{true}
use samdisk_plus.Header.{DataRate, Encoding}
use samdisk_plus.Format.{FdcType, RegularFormat, Format, new_format}

abbrev to_640k_mfm_settings : Format
to_640k_mfm_settings = record new_format {
  cyls = 80;
  heads = 2;
  datarate = DataRate.rate_250k;
  encoding = Encoding.mfm;
  sectors = 16;
  size = 1;
  interleave = 7;
  gap3 = 50;
  fill = 0xe5;
  cyls_first = true;
}

abbrev to_320k_mfm_settings : Format
to_320k_mfm_settings = record to_640k_mfm_settings {
  cyls = 80;
  heads = 1;
  size = 1;
  encoding = Encoding.mfm;
}

abbrev to_160k_fm_settings : Format
to_160k_fm_settings = record to_320k_mfm_settings {
  cyls = 80;
  heads = 1;
  size = 0;
  encoding = Encoding.fm;
}

-- The settings of each format. A format that starts from another calls `GetFormat` for it in the
-- source.
unfoldable pub settings : RegularFormat → Format
settings RegularFormat.no_format = new_format
settings RegularFormat.unspecified = new_format
settings RegularFormat.mgt = record new_format {
  fdc = FdcType.wd;
  datarate = DataRate.rate_250k;
  encoding = Encoding.mfm;
  sectors = 10;
  skew = 1;
  gap3 = 24;
}
settings RegularFormat.pro_dos = record new_format {
  fdc = FdcType.pc;
  datarate = DataRate.rate_250k;
  encoding = Encoding.mfm;
  sectors = 9;
  interleave = 2;
  skew = 2;
  gap3 = 0x50;
  fill = 0xe5;
}
settings RegularFormat.trdos = record new_format {
  fdc = FdcType.wd;
  datarate = DataRate.rate_250k;
  encoding = Encoding.mfm;
  cyls = 80;
  heads = 2;
  sectors = 16;
  size = 1;
  interleave = 2;
  head1 = 0;
}
settings RegularFormat.qdos = record new_format {
  fdc = FdcType.wd;
  datarate = DataRate.rate_250k;
  encoding = Encoding.mfm;
  cyls = 80;
  heads = 2;
  sectors = 9;
  size = 2;
}
settings RegularFormat.opd = record new_format {
  fdc = FdcType.wd;
  datarate = DataRate.rate_250k;
  encoding = Encoding.mfm;
  sectors = 18;
  size = 1;
  fill = 0xe5;
  base = 0;
  offset = 17;
  interleave = 13;
  skew = 13;
}
settings RegularFormat.d80 = record new_format {
  fdc = FdcType.wd;
  datarate = DataRate.rate_250k;
  encoding = Encoding.mfm;
  sectors = 9;
  skew = 5;
  fill = 0xe5;
}
settings RegularFormat.pc320 = record new_format {
  fdc = FdcType.pc;
  datarate = DataRate.rate_250k;
  encoding = Encoding.mfm;
  cyls = 40;
  sectors = 8;
  interleave = 1;
  skew = 1;
  gap3 = 0x50;
  fill = 0xf6;
}
settings RegularFormat.pc360 = record new_format {
  fdc = FdcType.pc;
  datarate = DataRate.rate_250k;
  encoding = Encoding.mfm;
  cyls = 40;
  sectors = 9;
  interleave = 1;
  skew = 1;
  gap3 = 0x50;
  fill = 0xf6;
}
settings RegularFormat.pc640 = record new_format {
  fdc = FdcType.pc;
  datarate = DataRate.rate_250k;
  encoding = Encoding.mfm;
  sectors = 8;
  interleave = 1;
  skew = 1;
  gap3 = 0x50;
  fill = 0xe5;
}
settings RegularFormat.pc720 = record new_format {
  fdc = FdcType.pc;
  datarate = DataRate.rate_250k;
  encoding = Encoding.mfm;
  sectors = 9;
  interleave = 1;
  skew = 1;
  gap3 = 0x50;
  fill = 0xf6;
}
settings RegularFormat.pc1200 = record new_format {
  fdc = FdcType.pc;
  datarate = DataRate.rate_500k;
  encoding = Encoding.mfm;
  sectors = 15;
  interleave = 1;
  skew = 1;
  gap3 = 0x54;
  fill = 0xf6;
}
settings RegularFormat.pc1232 = record new_format {
  fdc = FdcType.pc;
  datarate = DataRate.rate_500k;
  encoding = Encoding.mfm;
  cyls = 77;
  sectors = 8;
  size = 3;
  interleave = 1;
  skew = 1;
  gap3 = 0x54;
  fill = 0xf6;
}
settings RegularFormat.pc1440 = record new_format {
  fdc = FdcType.pc;
  datarate = DataRate.rate_500k;
  encoding = Encoding.mfm;
  sectors = 18;
  interleave = 1;
  skew = 1;
  gap3 = 0x65;
  fill = 0xf6;
}
settings RegularFormat.pc2880 = record new_format {
  fdc = FdcType.pc;
  datarate = DataRate.rate_1m;
  encoding = Encoding.mfm;
  sectors = 36;
  interleave = 1;
  skew = 1;
  gap3 = 0x53;
  fill = 0xf6;
}
settings RegularFormat.to_640k_mfm = to_640k_mfm_settings
settings RegularFormat.to_320k_mfm = to_320k_mfm_settings
settings RegularFormat.to_160k_mfm = record to_320k_mfm_settings {
  cyls = 40;
  heads = 1;
  size = 1;
  encoding = Encoding.mfm;
}
settings RegularFormat.to_160k_fm = to_160k_fm_settings
settings RegularFormat.to_80k_fm = record to_160k_fm_settings {
  cyls = 40;
  heads = 1;
  size = 0;
  encoding = Encoding.fm;
}
settings RegularFormat.amiga_dos = record new_format {
  fdc = FdcType.amiga;
  datarate = DataRate.rate_250k;
  encoding = Encoding.amiga;
  cyls = 80;
  sectors = 11;
  size = 2;
  base = 0;
}
settings RegularFormat.amiga_dos_hd = record new_format {
  fdc = FdcType.amiga;
  datarate = DataRate.rate_500k;
  encoding = Encoding.amiga;
  sectors = 22;
  size = 2;
  base = 0;
}
settings RegularFormat.mbd820 = record new_format {
  fdc = FdcType.wd;
  datarate = DataRate.rate_250k;
  encoding = Encoding.mfm;
  cyls = 82;
  sectors = 5;
  size = 3;
  skew = 1;
  gap3 = 44;
}
settings RegularFormat.mbd1804 = record new_format {
  fdc = FdcType.wd;
  datarate = DataRate.rate_500k;
  encoding = Encoding.mfm;
  cyls = 82;
  sectors = 11;
  size = 3;
  skew = 1;
}
settings RegularFormat.d2m = record new_format {
  fdc = FdcType.wd;
  datarate = DataRate.rate_500k;
  encoding = Encoding.mfm;
  cyls = 81;
  sectors = 10;
  size = 3;
  fill = 0xe5;
  gap3 = 0x64;
  head0 = 1;
  head1 = 0;
}
settings RegularFormat.d4m = record new_format {
  fdc = FdcType.wd;
  datarate = DataRate.rate_1m;
  encoding = Encoding.mfm;
  cyls = 81;
  sectors = 20;
  size = 3;
  fill = 0xe5;
  gap3 = 0x64;
  head0 = 1;
  head1 = 0;
}
settings RegularFormat.two_d = record new_format {
  fdc = FdcType.pc;
  datarate = DataRate.rate_250k;
  encoding = Encoding.mfm;
  cyls = 40;
  sectors = 16;
  size = 1;
}
settings RegularFormat.d81 = record new_format {
  fdc = FdcType.wd;
  datarate = DataRate.rate_250k;
  encoding = Encoding.mfm;
  sectors = 10;
  gap3 = 0x26;
  head0 = 1;
  head1 = 0;
}
settings RegularFormat.lif = record new_format {
  cyls = 77;
  heads = 2;
  fdc = FdcType.pc;
  datarate = DataRate.rate_250k;
  encoding = Encoding.mfm;
  sectors = 16;
  size = 1;
}
settings RegularFormat.atari_st = record new_format {
  fdc = FdcType.wd;
  datarate = DataRate.rate_250k;
  encoding = Encoding.mfm;
  cyls = 80;
  heads = 2;
  sectors = 9;
  size = 2;
  gap3 = 40;
  fill = 0x00;
}
settings RegularFormat.apple_do = record new_format {
  fdc = FdcType.apple;
  datarate = DataRate.rate_250k;
  encoding = Encoding.apple;
  cyls = 35;
  heads = 1;
  sectors = 16;
  base = 0;
  size = 1;
}

unfoldable pub get_format : RegularFormat → Format
unfolding settings
get_format r = record (settings r) { regular_format = r }
