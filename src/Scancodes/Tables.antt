-- ===== src/Scancodes/Tables.antt =====
-- ykman/scancodes: the codes of the keys for each layout, `SHIFT` (0x80) included.
use yubikey_manager.Prelude.{ℕ, [], ◌∷◌}
use yubikey_manager.Core.Dict.{Dict}

abbrev pub modhex_scancodes : Dict ℕ
modhex_scancodes =
    (0x62, 0x05)
    ∷ (0x63, 0x06)
    ∷ (0x64, 0x07)
    ∷ (0x65, 0x08)
    ∷ (0x66, 0x09)
    ∷ (0x67, 0x0a)
    ∷ (0x68, 0x0b)
    ∷ (0x69, 0x0c)
    ∷ (0x6a, 0x0d)
    ∷ (0x6b, 0x0e)
    ∷ (0x6c, 0x0f)
    ∷ (0x6e, 0x11)
    ∷ (0x72, 0x15)
    ∷ (0x74, 0x17)
    ∷ (0x75, 0x18)
    ∷ (0x76, 0x19)
    ∷ (0x42, 0x85)
    ∷ (0x43, 0x86)
    ∷ (0x44, 0x87)
    ∷ (0x45, 0x88)
    ∷ (0x46, 0x89)
    ∷ (0x47, 0x8a)
    ∷ (0x48, 0x8b)
    ∷ (0x49, 0x8c)
    ∷ (0x4a, 0x8d)
    ∷ (0x4b, 0x8e)
    ∷ (0x4c, 0x8f)
    ∷ (0x4e, 0x91)
    ∷ (0x52, 0x95)
    ∷ (0x54, 0x97)
    ∷ (0x55, 0x98)
    ∷ (0x56, 0x99)
    ∷ []

abbrev pub us_scancodes : Dict ℕ
us_scancodes =
    (0x61, 0x04)
    ∷ (0x62, 0x05)
    ∷ (0x63, 0x06)
    ∷ (0x64, 0x07)
    ∷ (0x65, 0x08)
    ∷ (0x66, 0x09)
    ∷ (0x67, 0x0a)
    ∷ (0x68, 0x0b)
    ∷ (0x69, 0x0c)
    ∷ (0x6a, 0x0d)
    ∷ (0x6b, 0x0e)
    ∷ (0x6c, 0x0f)
    ∷ (0x6d, 0x10)
    ∷ (0x6e, 0x11)
    ∷ (0x6f, 0x12)
    ∷ (0x70, 0x13)
    ∷ (0x71, 0x14)
    ∷ (0x72, 0x15)
    ∷ (0x73, 0x16)
    ∷ (0x74, 0x17)
    ∷ (0x75, 0x18)
    ∷ (0x76, 0x19)
    ∷ (0x77, 0x1a)
    ∷ (0x78, 0x1b)
    ∷ (0x79, 0x1c)
    ∷ (0x7a, 0x1d)
    ∷ (0x41, 0x84)
    ∷ (0x42, 0x85)
    ∷ (0x43, 0x86)
    ∷ (0x44, 0x87)
    ∷ (0x45, 0x88)
    ∷ (0x46, 0x89)
    ∷ (0x47, 0x8a)
    ∷ (0x48, 0x8b)
    ∷ (0x49, 0x8c)
    ∷ (0x4a, 0x8d)
    ∷ (0x4b, 0x8e)
    ∷ (0x4c, 0x8f)
    ∷ (0x4d, 0x90)
    ∷ (0x4e, 0x91)
    ∷ (0x4f, 0x92)
    ∷ (0x50, 0x93)
    ∷ (0x51, 0x94)
    ∷ (0x52, 0x95)
    ∷ (0x53, 0x96)
    ∷ (0x54, 0x97)
    ∷ (0x55, 0x98)
    ∷ (0x56, 0x99)
    ∷ (0x57, 0x9a)
    ∷ (0x58, 0x9b)
    ∷ (0x59, 0x9c)
    ∷ (0x5a, 0x9d)
    ∷ (0x30, 0x27)
    ∷ (0x31, 0x1e)
    ∷ (0x32, 0x1f)
    ∷ (0x33, 0x20)
    ∷ (0x34, 0x21)
    ∷ (0x35, 0x22)
    ∷ (0x36, 0x23)
    ∷ (0x37, 0x24)
    ∷ (0x38, 0x25)
    ∷ (0x39, 0x26)
    ∷ (0x09, 0x2b)
    ∷ (0x0a, 0x28)
    ∷ (0x21, 0x9e)
    ∷ (0x22, 0xb4)
    ∷ (0x23, 0xa0)
    ∷ (0x24, 0xa1)
    ∷ (0x25, 0xa2)
    ∷ (0x26, 0xa4)
    ∷ (0x27, 0x34)
    ∷ (0x60, 0x35)
    ∷ (0x28, 0xa6)
    ∷ (0x29, 0xa7)
    ∷ (0x2a, 0xa5)
    ∷ (0x2b, 0xae)
    ∷ (0x2c, 0x36)
    ∷ (0x2d, 0x2d)
    ∷ (0x2e, 0x37)
    ∷ (0x2f, 0x38)
    ∷ (0x3a, 0xb3)
    ∷ (0x3b, 0x33)
    ∷ (0x3c, 0xb6)
    ∷ (0x3d, 0x2e)
    ∷ (0x3e, 0xb7)
    ∷ (0x3f, 0xb8)
    ∷ (0x40, 0x9f)
    ∷ (0x5b, 0x2f)
    ∷ (0x5c, 0x32)
    ∷ (0x5d, 0x30)
    ∷ (0x5e, 0xa3)
    ∷ (0x5f, 0xad)
    ∷ (0x7b, 0xaf)
    ∷ (0x7d, 0xb0)
    ∷ (0x7c, 0xb2)
    ∷ (0x7e, 0xb5)
    ∷ (0x20, 0x2c)
    ∷ []

abbrev pub uk_scancodes : Dict ℕ
uk_scancodes =
    (0x61, 0x04)
    ∷ (0x62, 0x05)
    ∷ (0x63, 0x06)
    ∷ (0x64, 0x07)
    ∷ (0x65, 0x08)
    ∷ (0x66, 0x09)
    ∷ (0x67, 0x0a)
    ∷ (0x68, 0x0b)
    ∷ (0x69, 0x0c)
    ∷ (0x6a, 0x0d)
    ∷ (0x6b, 0x0e)
    ∷ (0x6c, 0x0f)
    ∷ (0x6d, 0x10)
    ∷ (0x6e, 0x11)
    ∷ (0x6f, 0x12)
    ∷ (0x70, 0x13)
    ∷ (0x71, 0x14)
    ∷ (0x72, 0x15)
    ∷ (0x73, 0x16)
    ∷ (0x74, 0x17)
    ∷ (0x75, 0x18)
    ∷ (0x76, 0x19)
    ∷ (0x77, 0x1a)
    ∷ (0x78, 0x1b)
    ∷ (0x79, 0x1c)
    ∷ (0x7a, 0x1d)
    ∷ (0x41, 0x84)
    ∷ (0x42, 0x85)
    ∷ (0x43, 0x86)
    ∷ (0x44, 0x87)
    ∷ (0x45, 0x88)
    ∷ (0x46, 0x89)
    ∷ (0x47, 0x8a)
    ∷ (0x48, 0x8b)
    ∷ (0x49, 0x8c)
    ∷ (0x4a, 0x8d)
    ∷ (0x4b, 0x8e)
    ∷ (0x4c, 0x8f)
    ∷ (0x4d, 0x90)
    ∷ (0x4e, 0x91)
    ∷ (0x4f, 0x92)
    ∷ (0x50, 0x93)
    ∷ (0x51, 0x94)
    ∷ (0x52, 0x95)
    ∷ (0x53, 0x96)
    ∷ (0x54, 0x97)
    ∷ (0x55, 0x98)
    ∷ (0x56, 0x99)
    ∷ (0x57, 0x9a)
    ∷ (0x58, 0x9b)
    ∷ (0x59, 0x9c)
    ∷ (0x5a, 0x9d)
    ∷ (0x30, 0x27)
    ∷ (0x31, 0x1e)
    ∷ (0x32, 0x1f)
    ∷ (0x33, 0x20)
    ∷ (0x34, 0x21)
    ∷ (0x35, 0x22)
    ∷ (0x36, 0x23)
    ∷ (0x37, 0x24)
    ∷ (0x38, 0x25)
    ∷ (0x39, 0x26)
    ∷ (0x09, 0x2b)
    ∷ (0x0a, 0x28)
    ∷ (0x21, 0x9e)
    ∷ (0x40, 0xb4)
    ∷ (0xa3, 0xa0)
    ∷ (0x24, 0xa1)
    ∷ (0x25, 0xa2)
    ∷ (0x26, 0xa4)
    ∷ (0x27, 0x34)
    ∷ (0x60, 0x35)
    ∷ (0x28, 0xa6)
    ∷ (0x29, 0xa7)
    ∷ (0x2a, 0xa5)
    ∷ (0x2b, 0xae)
    ∷ (0x2c, 0x36)
    ∷ (0x2d, 0x2d)
    ∷ (0x2e, 0x37)
    ∷ (0x2f, 0x38)
    ∷ (0x3a, 0xb3)
    ∷ (0x3b, 0x33)
    ∷ (0x3c, 0xb6)
    ∷ (0x3d, 0x2e)
    ∷ (0x3e, 0xb7)
    ∷ (0x3f, 0xb8)
    ∷ (0x22, 0x9f)
    ∷ (0x5b, 0x2f)
    ∷ (0x23, 0x32)
    ∷ (0x5d, 0x30)
    ∷ (0x5e, 0xa3)
    ∷ (0x5f, 0xad)
    ∷ (0x7b, 0xaf)
    ∷ (0x7d, 0xb0)
    ∷ (0x7e, 0xb2)
    ∷ (0xac, 0xb5)
    ∷ (0x20, 0x2c)
    ∷ []

abbrev pub de_scancodes : Dict ℕ
de_scancodes =
    (0x61, 0x04)
    ∷ (0x62, 0x05)
    ∷ (0x63, 0x06)
    ∷ (0x64, 0x07)
    ∷ (0x65, 0x08)
    ∷ (0x66, 0x09)
    ∷ (0x67, 0x0a)
    ∷ (0x68, 0x0b)
    ∷ (0x69, 0x0c)
    ∷ (0x6a, 0x0d)
    ∷ (0x6b, 0x0e)
    ∷ (0x6c, 0x0f)
    ∷ (0x6d, 0x10)
    ∷ (0x6e, 0x11)
    ∷ (0x6f, 0x12)
    ∷ (0x70, 0x13)
    ∷ (0x71, 0x14)
    ∷ (0x72, 0x15)
    ∷ (0x73, 0x16)
    ∷ (0x74, 0x17)
    ∷ (0x75, 0x18)
    ∷ (0x76, 0x19)
    ∷ (0x77, 0x1a)
    ∷ (0x78, 0x1b)
    ∷ (0x79, 0x1d)
    ∷ (0x7a, 0x1c)
    ∷ (0x41, 0x84)
    ∷ (0x42, 0x85)
    ∷ (0x43, 0x86)
    ∷ (0x44, 0x87)
    ∷ (0x45, 0x88)
    ∷ (0x46, 0x89)
    ∷ (0x47, 0x8a)
    ∷ (0x48, 0x8b)
    ∷ (0x49, 0x8c)
    ∷ (0x4a, 0x8d)
    ∷ (0x4b, 0x8e)
    ∷ (0x4c, 0x8f)
    ∷ (0x4d, 0x90)
    ∷ (0x4e, 0x91)
    ∷ (0x4f, 0x92)
    ∷ (0x50, 0x93)
    ∷ (0x51, 0x94)
    ∷ (0x52, 0x95)
    ∷ (0x53, 0x96)
    ∷ (0x54, 0x97)
    ∷ (0x55, 0x98)
    ∷ (0x56, 0x99)
    ∷ (0x57, 0x9a)
    ∷ (0x58, 0x9b)
    ∷ (0x59, 0x9d)
    ∷ (0x5a, 0x9c)
    ∷ (0x30, 0x27)
    ∷ (0x31, 0x1e)
    ∷ (0x32, 0x1f)
    ∷ (0x33, 0x20)
    ∷ (0x34, 0x21)
    ∷ (0x35, 0x22)
    ∷ (0x36, 0x23)
    ∷ (0x37, 0x24)
    ∷ (0x38, 0x25)
    ∷ (0x39, 0x26)
    ∷ (0x09, 0x2b)
    ∷ (0x0a, 0x28)
    ∷ (0x21, 0x9e)
    ∷ (0x22, 0x9f)
    ∷ (0x23, 0x32)
    ∷ (0x24, 0xa1)
    ∷ (0x25, 0xa2)
    ∷ (0x26, 0xa3)
    ∷ (0x27, 0xb2)
    ∷ (0x28, 0xa5)
    ∷ (0x29, 0xa6)
    ∷ (0x2a, 0xb0)
    ∷ (0x2b, 0x30)
    ∷ (0x2c, 0x36)
    ∷ (0x2d, 0x38)
    ∷ (0x2e, 0x37)
    ∷ (0x2f, 0xa4)
    ∷ (0x3a, 0xb7)
    ∷ (0x3b, 0xb6)
    ∷ (0x3c, 0x64)
    ∷ (0x3d, 0xa7)
    ∷ (0x3e, 0xe4)
    ∷ (0x3f, 0xad)
    ∷ (0x5e, 0x35)
    ∷ (0x5f, 0xb8)
    ∷ (0x20, 0x2c)
    ∷ (0x60, 0xad)
    ∷ (0xa7, 0xa0)
    ∷ (0xb4, 0x2e)
    ∷ (0xc4, 0xb4)
    ∷ (0xd6, 0xb3)
    ∷ (0xdc, 0xaf)
    ∷ (0xdf, 0x2d)
    ∷ (0xe4, 0x34)
    ∷ (0xf6, 0x33)
    ∷ (0xfc, 0x2f)
    ∷ []

abbrev pub fr_scancodes : Dict ℕ
fr_scancodes =
    (0x61, 0x14)
    ∷ (0x62, 0x05)
    ∷ (0x63, 0x06)
    ∷ (0x64, 0x07)
    ∷ (0x65, 0x08)
    ∷ (0x66, 0x09)
    ∷ (0x67, 0x0a)
    ∷ (0x68, 0x0b)
    ∷ (0x69, 0x0c)
    ∷ (0x6a, 0x0d)
    ∷ (0x6b, 0x0e)
    ∷ (0x6c, 0x0f)
    ∷ (0x6d, 0x33)
    ∷ (0x6e, 0x11)
    ∷ (0x6f, 0x12)
    ∷ (0x70, 0x13)
    ∷ (0x71, 0x04)
    ∷ (0x72, 0x15)
    ∷ (0x73, 0x16)
    ∷ (0x74, 0x17)
    ∷ (0x75, 0x18)
    ∷ (0x76, 0x19)
    ∷ (0x77, 0x1d)
    ∷ (0x78, 0x1b)
    ∷ (0x79, 0x1c)
    ∷ (0x7a, 0x1a)
    ∷ (0x41, 0x94)
    ∷ (0x42, 0x85)
    ∷ (0x43, 0x86)
    ∷ (0x44, 0x87)
    ∷ (0x45, 0x88)
    ∷ (0x46, 0x89)
    ∷ (0x47, 0x8a)
    ∷ (0x48, 0x8b)
    ∷ (0x49, 0x8c)
    ∷ (0x4a, 0x8d)
    ∷ (0x4b, 0x8e)
    ∷ (0x4c, 0x8f)
    ∷ (0x4d, 0xb3)
    ∷ (0x4e, 0x91)
    ∷ (0x4f, 0x92)
    ∷ (0x50, 0x93)
    ∷ (0x51, 0x84)
    ∷ (0x52, 0x95)
    ∷ (0x53, 0x96)
    ∷ (0x54, 0x97)
    ∷ (0x55, 0x98)
    ∷ (0x56, 0x99)
    ∷ (0x57, 0x9d)
    ∷ (0x58, 0x9b)
    ∷ (0x59, 0x9c)
    ∷ (0x5a, 0x9a)
    ∷ (0x30, 0xa7)
    ∷ (0x31, 0x9e)
    ∷ (0x32, 0x9f)
    ∷ (0x33, 0xa0)
    ∷ (0x34, 0xa1)
    ∷ (0x35, 0xa2)
    ∷ (0x36, 0xa3)
    ∷ (0x37, 0xa4)
    ∷ (0x38, 0xa5)
    ∷ (0x39, 0xa6)
    ∷ (0x09, 0x2b)
    ∷ (0x0a, 0x28)
    ∷ (0x20, 0x2c)
    ∷ (0x21, 0x38)
    ∷ (0x22, 0x20)
    ∷ (0x24, 0x30)
    ∷ (0x25, 0xb4)
    ∷ (0x26, 0x1e)
    ∷ (0x27, 0x21)
    ∷ (0x28, 0x22)
    ∷ (0x29, 0x2d)
    ∷ (0x2a, 0x31)
    ∷ (0x2b, 0xae)
    ∷ (0x2c, 0x10)
    ∷ (0x2d, 0x23)
    ∷ (0x2e, 0xb6)
    ∷ (0x2f, 0xb7)
    ∷ (0x3a, 0x37)
    ∷ (0x3b, 0x36)
    ∷ (0x3c, 0x64)
    ∷ (0x3d, 0x2e)
    ∷ (0x5f, 0x25)
    ∷ (0x7f, 0x2a)
    ∷ (0xa3, 0xb0)
    ∷ (0xa7, 0xb8)
    ∷ (0xb0, 0xad)
    ∷ (0xb2, 0x35)
    ∷ (0xb5, 0xb1)
    ∷ (0xe0, 0x27)
    ∷ (0xe7, 0x26)
    ∷ (0xe8, 0x24)
    ∷ (0xe9, 0x1f)
    ∷ (0xf9, 0x34)
    ∷ []

abbrev pub it_scancodes : Dict ℕ
it_scancodes =
    (0x09, 0x2b)
    ∷ (0x0a, 0x28)
    ∷ (0x20, 0x2c)
    ∷ (0x21, 0x9e)
    ∷ (0x22, 0x9f)
    ∷ (0x23, 0x32)
    ∷ (0x24, 0xa1)
    ∷ (0x25, 0xa2)
    ∷ (0x26, 0xa3)
    ∷ (0x27, 0x2d)
    ∷ (0x28, 0xa5)
    ∷ (0x29, 0xa6)
    ∷ (0x2a, 0x55)
    ∷ (0x2b, 0x30)
    ∷ (0x2c, 0x36)
    ∷ (0x2d, 0x38)
    ∷ (0x2e, 0x63)
    ∷ (0x2f, 0xa4)
    ∷ (0x30, 0x27)
    ∷ (0x31, 0x1e)
    ∷ (0x32, 0x1f)
    ∷ (0x33, 0x20)
    ∷ (0x34, 0x21)
    ∷ (0x35, 0x22)
    ∷ (0x36, 0x23)
    ∷ (0x37, 0x24)
    ∷ (0x38, 0x25)
    ∷ (0x39, 0x26)
    ∷ (0x3a, 0xb7)
    ∷ (0x3b, 0xb6)
    ∷ (0x3c, 0x64)
    ∷ (0x3d, 0xa7)
    ∷ (0x3e, 0xe4)
    ∷ (0x3f, 0xad)
    ∷ (0x40, 0x24)
    ∷ (0x41, 0x84)
    ∷ (0x42, 0x85)
    ∷ (0x43, 0x86)
    ∷ (0x44, 0x87)
    ∷ (0x45, 0x88)
    ∷ (0x46, 0x89)
    ∷ (0x47, 0x8a)
    ∷ (0x48, 0x8b)
    ∷ (0x49, 0x8c)
    ∷ (0x4a, 0x8d)
    ∷ (0x4b, 0x8e)
    ∷ (0x4c, 0x8f)
    ∷ (0x4d, 0x90)
    ∷ (0x4e, 0x91)
    ∷ (0x4f, 0x92)
    ∷ (0x50, 0x93)
    ∷ (0x51, 0x94)
    ∷ (0x52, 0x95)
    ∷ (0x53, 0x96)
    ∷ (0x54, 0x97)
    ∷ (0x55, 0x98)
    ∷ (0x56, 0x99)
    ∷ (0x57, 0x9a)
    ∷ (0x58, 0x9b)
    ∷ (0x59, 0x9c)
    ∷ (0x5a, 0x9d)
    ∷ (0x5c, 0x35)
    ∷ (0x5e, 0xae)
    ∷ (0x5f, 0xb8)
    ∷ (0x60, 0xad)
    ∷ (0x61, 0x04)
    ∷ (0x62, 0x05)
    ∷ (0x63, 0x06)
    ∷ (0x64, 0x07)
    ∷ (0x65, 0x08)
    ∷ (0x66, 0x09)
    ∷ (0x67, 0x0a)
    ∷ (0x68, 0x0b)
    ∷ (0x69, 0x0c)
    ∷ (0x6a, 0x0d)
    ∷ (0x6b, 0x0e)
    ∷ (0x6c, 0x0f)
    ∷ (0x6d, 0x10)
    ∷ (0x6e, 0x11)
    ∷ (0x6f, 0x12)
    ∷ (0x70, 0x13)
    ∷ (0x71, 0x14)
    ∷ (0x72, 0x15)
    ∷ (0x73, 0x16)
    ∷ (0x74, 0x17)
    ∷ (0x75, 0x18)
    ∷ (0x76, 0x19)
    ∷ (0x77, 0x1a)
    ∷ (0x78, 0x1b)
    ∷ (0x79, 0x1c)
    ∷ (0x7a, 0x1d)
    ∷ (0x7c, 0xb5)
    ∷ (0xa3, 0xa0)
    ∷ (0xa7, 0xb2)
    ∷ (0xb0, 0xb4)
    ∷ (0xe7, 0xb3)
    ∷ (0xe8, 0x2f)
    ∷ (0xe9, 0xaf)
    ∷ (0xe0, 0x34)
    ∷ (0xec, 0x2e)
    ∷ (0xf2, 0x33)
    ∷ (0xf9, 0x31)
    ∷ []

abbrev pub bepo_scancodes : Dict ℕ
bepo_scancodes =
    (0x09, 0xab)
    ∷ (0x0a, 0xa8)
    ∷ (0x20, 0x2c)
    ∷ (0x21, 0x9c)
    ∷ (0x22, 0x1e)
    ∷ (0x23, 0xb5)
    ∷ (0x24, 0x35)
    ∷ (0x25, 0x2e)
    ∷ (0x27, 0x11)
    ∷ (0x28, 0x21)
    ∷ (0x29, 0x22)
    ∷ (0x2a, 0x27)
    ∷ (0x2b, 0x24)
    ∷ (0x2c, 0x0a)
    ∷ (0x2d, 0x25)
    ∷ (0x2e, 0x19)
    ∷ (0x2f, 0x26)
    ∷ (0x30, 0xa7)
    ∷ (0x31, 0x9e)
    ∷ (0x32, 0x9f)
    ∷ (0x33, 0xa0)
    ∷ (0x34, 0xa1)
    ∷ (0x35, 0xa2)
    ∷ (0x36, 0xa3)
    ∷ (0x37, 0xa4)
    ∷ (0x38, 0xa5)
    ∷ (0x39, 0xa6)
    ∷ (0x3a, 0x99)
    ∷ (0x3b, 0x8a)
    ∷ (0x3d, 0x2d)
    ∷ (0x3f, 0x91)
    ∷ (0x40, 0x23)
    ∷ (0x41, 0x84)
    ∷ (0x42, 0x94)
    ∷ (0x43, 0x8b)
    ∷ (0x44, 0x8c)
    ∷ (0x45, 0x89)
    ∷ (0x46, 0xb8)
    ∷ (0x47, 0xb6)
    ∷ (0x48, 0xb7)
    ∷ (0x49, 0x87)
    ∷ (0x4a, 0x93)
    ∷ (0x4b, 0x85)
    ∷ (0x4c, 0x92)
    ∷ (0x4d, 0xb4)
    ∷ (0x4e, 0xb3)
    ∷ (0x4f, 0x95)
    ∷ (0x50, 0x88)
    ∷ (0x51, 0x90)
    ∷ (0x52, 0x8f)
    ∷ (0x53, 0x8e)
    ∷ (0x54, 0x8d)
    ∷ (0x55, 0x96)
    ∷ (0x56, 0x98)
    ∷ (0x57, 0xb0)
    ∷ (0x58, 0x86)
    ∷ (0x59, 0x9b)
    ∷ (0x5a, 0xaf)
    ∷ (0x60, 0xae)
    ∷ (0x61, 0x04)
    ∷ (0x62, 0x14)
    ∷ (0x63, 0x0b)
    ∷ (0x64, 0x0c)
    ∷ (0x65, 0x09)
    ∷ (0x66, 0x38)
    ∷ (0x67, 0x36)
    ∷ (0x68, 0x37)
    ∷ (0x69, 0x07)
    ∷ (0x6a, 0x13)
    ∷ (0x6b, 0x05)
    ∷ (0x6c, 0x12)
    ∷ (0x6d, 0x34)
    ∷ (0x6e, 0x33)
    ∷ (0x6f, 0x15)
    ∷ (0x70, 0x08)
    ∷ (0x71, 0x10)
    ∷ (0x72, 0x0f)
    ∷ (0x73, 0x0e)
    ∷ (0x74, 0x0d)
    ∷ (0x75, 0x16)
    ∷ (0x76, 0x18)
    ∷ (0x77, 0x30)
    ∷ (0x78, 0x06)
    ∷ (0x79, 0x1b)
    ∷ (0x7a, 0x2f)
    ∷ (0xa0, 0xac)
    ∷ (0xab, 0x1f)
    ∷ (0xb0, 0xad)
    ∷ (0xbb, 0x20)
    ∷ (0xc0, 0x9d)
    ∷ (0xc7, 0xb1)
    ∷ (0xc8, 0x97)
    ∷ (0xc9, 0x9a)
    ∷ (0xca, 0xe4)
    ∷ (0xe0, 0x1d)
    ∷ (0xe7, 0x31)
    ∷ (0xe8, 0x17)
    ∷ (0xe9, 0x1a)
    ∷ (0xea, 0x64)
    ∷ []

abbrev pub norman_scancodes : Dict ℕ
norman_scancodes =
    (0x61, 0x04)
    ∷ (0x62, 0x05)
    ∷ (0x63, 0x06)
    ∷ (0x64, 0x08)
    ∷ (0x65, 0x07)
    ∷ (0x66, 0x15)
    ∷ (0x67, 0x0a)
    ∷ (0x68, 0x33)
    ∷ (0x69, 0x0e)
    ∷ (0x6a, 0x1c)
    ∷ (0x6b, 0x17)
    ∷ (0x6c, 0x12)
    ∷ (0x6d, 0x10)
    ∷ (0x6e, 0x0d)
    ∷ (0x6f, 0x0f)
    ∷ (0x70, 0x11)
    ∷ (0x71, 0x14)
    ∷ (0x72, 0x0c)
    ∷ (0x73, 0x16)
    ∷ (0x74, 0x09)
    ∷ (0x75, 0x18)
    ∷ (0x76, 0x19)
    ∷ (0x77, 0x1a)
    ∷ (0x78, 0x1b)
    ∷ (0x79, 0x0b)
    ∷ (0x7a, 0x1d)
    ∷ (0x41, 0x84)
    ∷ (0x42, 0x85)
    ∷ (0x43, 0x86)
    ∷ (0x44, 0x88)
    ∷ (0x45, 0x87)
    ∷ (0x46, 0x95)
    ∷ (0x47, 0x8a)
    ∷ (0x48, 0xb3)
    ∷ (0x49, 0x8e)
    ∷ (0x4a, 0x9c)
    ∷ (0x4b, 0x97)
    ∷ (0x4c, 0x92)
    ∷ (0x4d, 0x90)
    ∷ (0x4e, 0x8d)
    ∷ (0x4f, 0x8f)
    ∷ (0x50, 0x91)
    ∷ (0x51, 0x94)
    ∷ (0x52, 0x8c)
    ∷ (0x53, 0x96)
    ∷ (0x54, 0x89)
    ∷ (0x55, 0x98)
    ∷ (0x56, 0x99)
    ∷ (0x57, 0x9a)
    ∷ (0x58, 0x9b)
    ∷ (0x59, 0x8b)
    ∷ (0x5a, 0x9d)
    ∷ (0x30, 0x27)
    ∷ (0x31, 0x1e)
    ∷ (0x32, 0x1f)
    ∷ (0x33, 0x20)
    ∷ (0x34, 0x21)
    ∷ (0x35, 0x22)
    ∷ (0x36, 0x23)
    ∷ (0x37, 0x24)
    ∷ (0x38, 0x25)
    ∷ (0x39, 0x26)
    ∷ (0x09, 0x2b)
    ∷ (0x0a, 0x28)
    ∷ (0x21, 0x9e)
    ∷ (0x22, 0xb4)
    ∷ (0x23, 0xa0)
    ∷ (0x24, 0xa1)
    ∷ (0x25, 0xa2)
    ∷ (0x26, 0xa4)
    ∷ (0x27, 0x34)
    ∷ (0x60, 0x35)
    ∷ (0x28, 0xa6)
    ∷ (0x29, 0xa7)
    ∷ (0x2a, 0xa5)
    ∷ (0x2b, 0xae)
    ∷ (0x2c, 0x36)
    ∷ (0x2d, 0x2d)
    ∷ (0x2e, 0x37)
    ∷ (0x2f, 0x38)
    ∷ (0x3a, 0xb3)
    ∷ (0x3b, 0x13)
    ∷ (0x3c, 0xb6)
    ∷ (0x3d, 0x2e)
    ∷ (0x3e, 0xb7)
    ∷ (0x3f, 0xb8)
    ∷ (0x40, 0x9f)
    ∷ (0x5b, 0x2f)
    ∷ (0x5c, 0x32)
    ∷ (0x5d, 0x30)
    ∷ (0x5e, 0xa3)
    ∷ (0x5f, 0xad)
    ∷ (0x7b, 0xaf)
    ∷ (0x7d, 0xb0)
    ∷ (0x7c, 0xb2)
    ∷ (0x7e, 0xb5)
    ∷ (0x20, 0x2c)
    ∷ []
