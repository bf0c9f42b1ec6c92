-- ===== src/Mac/Mii.antt =====
-- The register numbers and the bits of the PHY that src/dev/mac.c uses, with the values of its
-- `#define`s.
use nemu_riscv.Base.{ℕ}

abbrev pub phy_detect_reg : ℕ
phy_detect_reg = 1

abbrev pub phy_detect_mask : ℕ
phy_detect_mask = 0x1808

abbrev pub mii_bmcr : ℕ
mii_bmcr = 0x00

abbrev pub mii_bmsr : ℕ
mii_bmsr = 0x01

abbrev pub mii_physid1 : ℕ
mii_physid1 = 0x02

abbrev pub mii_physid2 : ℕ
mii_physid2 = 0x03

abbrev pub mii_advertise : ℕ
mii_advertise = 0x04

abbrev pub mii_lpa : ℕ
mii_lpa = 0x05

abbrev pub bmcr_fulldplx : ℕ
bmcr_fulldplx = 0x0100

abbrev pub bmcr_anenable : ℕ
bmcr_anenable = 0x1000

abbrev pub bmcr_speed100 : ℕ
bmcr_speed100 = 0x2000

abbrev pub bmcr_reset : ℕ
bmcr_reset = 0x8000

abbrev pub bmsr_ercap : ℕ
bmsr_ercap = 0x0001

abbrev pub bmsr_lstatus : ℕ
bmsr_lstatus = 0x0004

abbrev pub bmsr_anegcapable : ℕ
bmsr_anegcapable = 0x0008

abbrev pub bmsr_anegcomplete : ℕ
bmsr_anegcomplete = 0x0020

abbrev pub bmsr_10half : ℕ
bmsr_10half = 0x0800

abbrev pub bmsr_10full : ℕ
bmsr_10full = 0x1000

abbrev pub bmsr_100half : ℕ
bmsr_100half = 0x2000

abbrev pub bmsr_100full : ℕ
bmsr_100full = 0x4000

abbrev pub advertise_csma : ℕ
advertise_csma = 0x0001

abbrev pub advertise_10half : ℕ
advertise_10half = 0x0020

abbrev pub advertise_10full : ℕ
advertise_10full = 0x0040

abbrev pub advertise_100half : ℕ
advertise_100half = 0x0080

abbrev pub advertise_100full : ℕ
advertise_100full = 0x0100

abbrev pub lpa_10half : ℕ
lpa_10half = 0x0020

abbrev pub lpa_10full : ℕ
lpa_10full = 0x0040

abbrev pub lpa_100half : ℕ
lpa_100half = 0x0080

abbrev pub lpa_1000xpause_asym : ℕ
lpa_1000xpause_asym = 0x0100

abbrev pub lpa_pause_cap : ℕ
lpa_pause_cap = 0x0400

abbrev pub lpa_pause_asym : ℕ
lpa_pause_asym = 0x0800

abbrev pub lpa_lpack : ℕ
lpa_lpack = 0x4000
