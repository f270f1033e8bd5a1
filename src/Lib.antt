-- ===== src/Lib.antt =====
-- A verification of yubikit, the library of ykman that talks to YubiKeys: the encodings and protocols
-- of yubikit/core, and the YubiOTP, management, OATH, YubiHSM Auth and PIV applications.
--
-- The parts. A connection, over HID or to a smart card, carries reports or APDUs. OtpProtocol
-- (yubikit/core/otp.py) cuts frames into reports and joins the answer; SmartCardProtocol
-- (yubikit/core/smartcard/__init__.py) formats APDUs, chains commands and responses, and secures them
-- with an ScpState (yubikit/core/smartcard/scp.py). On either stand the backends of the applications:
-- YubiOtpSession (yubikit/yubiotp.py) writes slots, ManagementSession (yubikit/management.py) reads
-- device information and writes settings. On SmartCardProtocol alone stand OathSession
-- (yubikit/oath.py), HsmAuthSession (yubikit/hsmauth.py) and PivSession (yubikit/piv.py). All encode
-- with Tlv, int2bytes and Version of yubikit/core/__init__.py.
--
-- The files.
-- Prelude: shared names, Boolean tests, lists over native numbers, bits (Prelude/Bits).
-- Core/Error, Core/Io: exceptions as values, and actions on a state that may raise; the state that
--   was reached comes back beside the error.
-- Core/Bytes, Core/Dict: bytes, indexing, slices, struct.pack, and dictionaries in insertion order.
-- Core/Text: str as code points, encode, decode and decimal numbers.
-- Core/Version: Version, require_version. Core/Pid: PID and its tables. Core/Tlv: _tlv_parse and Tlv,
--   with children on what packs and parses (Encoding, Fields) and on any input (Bounds, Sequence,
--   Limit).
-- Otp/Crc, Otp/Modhex, Otp/Frame, Otp/Protocol: the functions and the class of yubikit/core/otp.py;
--   Otp/Frame/Layout and Otp/Protocol/Sending have the device that takes the reports,
--   Otp/Protocol/Reading the device that answers.
-- SmartCard/Apdu: the two format_apdu; SmartCard/Chaining: the processors; SmartCard/Protocol:
--   SmartCardProtocol; SmartCard/Scp and SmartCard/Secure: scp.py and ScpProcessor. The children have a
--   card that parses, collects and answers.
-- YubiOtp/Flags, YubiOtp/Config, YubiOtp/Slot, YubiOtp/Ndef: the configuration records of
--   yubikit/yubiotp.py; YubiOtp/State, YubiOtp/Session: ConfigState, the backends, YubiOtpSession.
-- Management/Capability, Management/Mode, Management/Config, Management/Info, Management/Session: the
--   classes of yubikit/management.py by their names.
-- SmartCard/Application: what the sessions below use of SmartCardProtocol, as a record of calls that
--   the protocol fills; SmartCard/Retries: the status words that count attempts.
-- Oath/Credential, Oath/Code: credential ids and codes of yubikit/oath.py; Oath/Data: the
--   messages of OathSession; Oath/Session: its state and access key; Oath/Store: its credentials.
-- HsmAuth/Data, HsmAuth/Session: the functions and HsmAuthSession of yubikit/hsmauth.py.
-- Piv/Types, Piv/Pin, Piv/Metadata, Piv/Support: the enumerations and functions of yubikit/piv.py;
--   Piv/Session: the metadata and PINs of PivSession; Piv/Management: its management key and reset;
--   Piv/Objects: its objects and certificates; Piv/KeyData, Piv/Keys: its keys; Piv/Fascn: FascN.
-- Scancodes/Tables, Scancodes/Encode: the layouts and encode of ykman/scancodes.
-- The Tests modules run the theorems on concrete inputs.
--
-- How the code corresponds. A byte string is a list of numbers, a class a record, a class hierarchy
-- a data type or a tag in the record, and a method a function of the record. What Python raises is
-- an Error; messages are left out. The world behind a connection is a type parameter, and the HID
-- connection, the card, the clock, the Event of the caller, SHA-1 and AES are records of functions
-- on it. A string of the configuration modules is its UTF-8 bytes, and one of OATH, YubiHSM Auth
-- and PIV its code points. HMAC, hashes, ciphers, X.509, gzip, base64 and random bytes are
-- parameters of the sessions that use them.
--
-- Fuel. _tlv_parse has the length of its input and one, parse_list its length, _send_frame the
-- length of the frame, and command chaining the length of the body and one; these never run out,
-- since each round takes bytes away. Decimal numbers are printed with the number itself as fuel.
-- The reset of PivSession has fuel for the attempts of a PIN, of which fifteen are enough for a
-- device that counts down. The loops that wait for a device, _read_frame, response chaining and the
-- pages of the device information, have fuel as an argument; it is enough to have one round for
-- each report, response or page that comes, and one more for the pages.
--
-- Calls. Each nested indefinite length is a call of _tlv_parse in itself, and Python raises
-- RecursionError where its stack has no room for another, about a thousand. parse_header_within,
-- init_within, parse_from_within and parse_list_within of Core/Tlv have that room as an argument,
-- one for all calls, although it depends on the frames above. init and parse_list, which the
-- applications use, take it as larger than any input can need: the RecursionError of an answer of
-- the device that nests deeper is not in their models.
--
-- Not modelled: logging, sleeping and keyboard interrupts; Version.from_string, SCP11 and the
-- messages of the SCP handshakes; the opening of the application sessions and device_reset;
-- parse_uri of OATH, CHUID of PIV, the limit that newer versions of Python set to the digits of
-- int(); the other applications (OpenPGP, Security Domain, FIDO), device access and the command
-- line.

pub mod Prelude
pub mod Core
pub mod Otp
pub mod SmartCard
pub mod YubiOtp
pub mod Management
pub mod Oath
pub mod HsmAuth
pub mod Piv
pub mod Scancodes
